-- ===== src/NodeInfo/Lines/Defs.antt =====
-- `split` of NodeInfo/node_info.c, and the lines that `file2struct` reads.
use vpnp2p.Prelude.{ℕ, ◌+◌, ◌-◌, ◌&&◌, ◌||◌, List, [], ◌∷◌, ◌++◌, ltb, ◌==◌, if◌then◌else◌, length}
use vpnp2p.CString.{Bytes}
use vpnp2p.NodeInfo.Heap.{Cmd, pure, fail, ◌>>=◌, out_of_bounds}

-- A token in front of the others, unless it is empty: `strtok` returns none of those.
abbrev pub put_token : Bytes → List Bytes → List Bytes
put_token [] ts = ts
put_token (c ∷ t) ts = (c ∷ t) ∷ ts

-- The tokens that repeated calls of `strtok(…, "\n")` return, from the bytes of the first one read
-- so far.
unfoldable pub strtok_all : Bytes → Bytes → List Bytes
strtok_all token [] = put_token token []
strtok_all token (c ∷ s) =
    let more = strtok_all (token ++ c ∷ []) s in
    let next = put_token token (strtok_all [] s) in if c == b'\n' then next else more

-- The loop of `split`: `strcpy(dst[n++], result)` into an array of `rows` rows of `columns` bytes.
unfoldable pub store_rows : ℕ → ℕ → ℕ → List Bytes → Cmd (List Bytes)
store_rows rows columns n [] = pure []
store_rows rows columns n (t ∷ ts) =
    let rest = store_rows rows columns (n + 1) ts in
    if ltb n rows && ltb (length t) columns
    then (do stored ← rest; pure (t ∷ stored))
    else fail out_of_bounds

-- `split(dst, buf, "\n")` for `char dst[50][80]`
unfoldable pub split : Bytes → Cmd (List Bytes)
unfolding strtok_all store_rows
split s = store_rows 50 80 0 (strtok_all [] s)

-- What repeated calls of `fgets(buffer, 255, fp)` read: up to a newline, or 254 bytes; `left` more
-- bytes fit the buffer, which holds `line`.
unfoldable pub fgets_all : ℕ → Bytes → Bytes → List Bytes
fgets_all left [] [] = []
fgets_all left (c ∷ line) [] = (c ∷ line) ∷ []
fgets_all left line (c ∷ s) =
    let full = (line ++ c ∷ []) ∷ fgets_all 254 [] s in
    let more = fgets_all (left - 1) (line ++ c ∷ []) s in
    if c == b'\n' || ltb left 2 then full else more

-- `strline[strlen(strline) - 1] = 0`
unfoldable pub chop : Bytes → Cmd Bytes
chop [] = fail out_of_bounds
chop (c ∷ []) = pure []
chop (c ∷ d ∷ s) = do rest ← chop (d ∷ s); pure (c ∷ rest)

-- A text of lines, each with its newline.
abbrev pub unlines : List Bytes → Bytes
unlines [] = []
unlines (l ∷ ls) = l ++ (b'\n' ∷ unlines ls)
