-- ===== src/Command.antt =====
-- main.c: the choice between `start` and `join`.
use vpnp2p.Prelude.{Bool, false, Option, none, some, List, [], ◌∷◌, if◌then◌else◌}
use vpnp2p.CString.{Bytes, codes, str_eq}

-- The call that `main` of main.c makes; a missing argument is `NULL`.
pub data Call : Type 0 where
  starts joins : Option Bytes → Bool → Call
  nothing : Call

unfoldable pub main : List Bytes → Call
main [] = nothing
main (program ∷ []) = nothing
main (program ∷ command ∷ arguments) =
    let address : Option Bytes = elim arguments [ [] ↦ none | a ∷ rest ↦ some a ] in
    let flag : Bool = elim arguments [ a ∷ [] ↦ str_eq a (codes "-f") | _ ↦ false ] in
    if str_eq command (codes "start")
    then starts address false
    else if str_eq command (codes "join")
    then joins address flag
    else nothing
