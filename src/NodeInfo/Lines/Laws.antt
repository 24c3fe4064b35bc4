-- ===== src/NodeInfo/Lines/Laws.antt =====
-- Lines that are joined with their newlines are found again by `split` and by `fgets`.
use mathlib.Core.List.{append-nil, append_assoc}
use vpnp2p.Prelude.{
  ℕ, ◌+◌, ◌-◌, ◌≤◌, ◌<◌, ◌≡◌, ◌≢◌, refl, ap, ◌∙◌, false, List, [], ◌∷◌, ◌++◌, map, arith, length,
}
use vpnp2p.CString.{Bytes, has_newline}
use vpnp2p.NodeInfo.Heap.{Heap, ok}
use vpnp2p.NodeInfo.Lines.Defs.{put_token, strtok_all, store_rows, split, fgets_all, chop, unlines}

-- A line that both readers find again: not empty, no newline in it, shorter than `size` bytes.
pub record IsLine (size : ℕ) (l : Bytes) : Type 0 where
  pub ne_nil : l ≢ []
  pub no_newline : has_newline l ≡ false
  pub short : length l < size

abbrev pub AllLines : ℕ → List Bytes → Type 0
AllLines size [] = Unit
AllLines size (l ∷ ls) = IsLine size l × AllLines size ls

strtok_all-line :
    (token l rest : Bytes)
    → has_newline l ≡ false
    → strtok_all token (l ++ (b'\n' ∷ rest)) ≡ put_token (token ++ l) (strtok_all [] rest)
unfolding strtok_all
strtok_all-line token [] rest h = rw append-nil
strtok_all-line token (c ∷ l) rest h =
    ground (arith, strtok_all-line (token ++ c ∷ []) l rest, append_assoc token (c ∷ []) l)

put_token_ne_nil : (t : Bytes) (ts : List Bytes) → t ≢ [] → put_token t ts ≡ t ∷ ts
put_token_ne_nil [] ts h = absurd (h refl)
put_token_ne_nil (c ∷ t) ts h = refl

strtok_all-unlines :
    (size : ℕ) (ls : List Bytes) → AllLines size ls → strtok_all [] (unlines ls) ≡ ls
strtok_all-unlines size [] h = unfold strtok_all in refl
strtok_all-unlines size (l ∷ ls) h =
    strtok_all-line [] l (unlines ls) h.0.no_newline
    ∙ put_token_ne_nil l _ h.0.ne_nil
    ∙ ap (◌∷◌ l) (strtok_all-unlines size ls h.1)

store_rows-ok :
    (rows columns n : ℕ) (ls : List Bytes) (h : Heap)
    → AllLines columns ls
    → n + length ls ≤ rows
    → store_rows rows columns n ls h ≡ ok ls h
unfolding store_rows
store_rows-ok rows columns n [] h all room = refl
store_rows-ok rows columns n (l ∷ ls) h all room =
    ground (arith, store_rows-ok rows columns (n + 1) ls h all.1, all.0.short)

-- `split` finds the lines again, if there are at most 50 and each is shorter than 80 bytes.
pub split-unlines :
    (ls : List Bytes) (h : Heap) → AllLines 80 ls → length ls ≤ 50 → split (unlines ls) h ≡ ok ls h
unfolding split
split-unlines ls h all room =
    rw (strtok_all-unlines 80 ls all) (store_rows-ok 50 80 0 ls h all (omega arith))

fgets_all-line :
    (left : ℕ) (line l rest : Bytes)
    → has_newline l ≡ false
    → length l < left
    → fgets_all left line (l ++ (b'\n' ∷ rest))
      ≡ (line ++ (l ++ b'\n' ∷ [])) ∷ fgets_all 254 [] rest
unfolding fgets_all
fgets_all-line left line [] rest h room = refl
fgets_all-line left line (c ∷ l) rest h room = ground (
  arith,
  fgets_all-line (left - 1) (line ++ c ∷ []) l rest,
  append_assoc line (c ∷ []) (l ++ b'\n' ∷ []),
)

-- A line as `fgets` leaves it.
abbrev pub with_newline : Bytes → Bytes
with_newline l = l ++ b'\n' ∷ []

-- `fgets` reads the lines again, if each is shorter than 254 bytes.
pub fgets_all-unlines :
    (ls : List Bytes) → AllLines 254 ls → fgets_all 254 [] (unlines ls) ≡ map with_newline ls
fgets_all-unlines [] h = unfold fgets_all in refl
fgets_all-unlines (l ∷ ls) h =
    fgets_all-line 254 [] l (unlines ls) h.0.no_newline h.0.short
    ∙ ap (◌∷◌ (with_newline l)) (fgets_all-unlines ls h.1)

pub chop-with_newline : (l : Bytes) (h : Heap) → chop (with_newline l) h ≡ ok l h
unfolding chop
chop-with_newline [] h = refl
chop-with_newline (c ∷ []) h = refl
chop-with_newline (c ∷ d ∷ l) h = rw (chop-with_newline (d ∷ l) h)
