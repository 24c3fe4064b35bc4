-- ===== src/Tests/Runs.antt =====
-- Runs of the definitions on concrete inputs.
use vpnp2p.Command.{main, starts, joins}
use vpnp2p.Prelude.{◌≡◌, refl, true, false, none, some, [], ◌∷◌, pos, negsuc}
use vpnp2p.CString.{
  codes, atoi, atoi_signed, digits_value, decimal, digits_fuel, starts_with, strip, str_eq,
}
use vpnp2p.Table.{hashatom}

atoi_run : atoi (codes " -42x") ≡ negsuc 41
unfolding atoi atoi_signed digits_value
atoi_run = refl

decimal_run : decimal (pos 2048) ≡ codes "2048"
unfolding decimal digits_fuel
decimal_run = refl

starts_with_run : starts_with (codes "ip_list") (codes "ip_list_ends") ≡ true
unfolding starts_with
starts_with_run = refl

strip_run : strip (codes "a\tb\n") ≡ codes "ab"
unfolding strip
strip_run = refl

hashatom_run : hashatom 4096 ≡ 1024
unfolding hashatom
hashatom_run = refl

main_join_run :
    main (codes "net" ∷ codes "join" ∷ codes "10.0.0.5" ∷ [])
    ≡ joins (some (codes "10.0.0.5")) false
unfolding main str_eq
main_join_run = refl

-- The only call that asks for the cache takes the flag for the address.
main_cache_run :
    main (codes "net" ∷ codes "join" ∷ codes "-f" ∷ []) ≡ joins (some (codes "-f")) true
unfolding main str_eq
main_cache_run = refl

main_start_run : main (codes "net" ∷ codes "start" ∷ []) ≡ starts none false
unfolding main str_eq
main_start_run = refl
