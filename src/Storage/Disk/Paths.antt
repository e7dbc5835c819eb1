-- ===== src/Storage/Disk/Paths.antt =====
-- Different chunks have different files, and no temporary file is a chunk's file.
use Prim.Native.String.{◌++◌}
use Prim.Native.Char.{code}
use text.Mathlib.TextLemmas.{append_cancel_right, cons-append, nil-append}
use distributed_fs.Common.{ℕ, String, true, List, ◌≡◌, ◌≢◌, sym, ap, ◌∙◌, arith}
use distributed_fs.Storage.Disk.{Layout, is_valid, chunk_path, temp_path}

-- What is used of path/filepath: the last element of a joined path is its last part, if that is one
-- element, which the name of a valid chunk with a suffix is.
pub record IsJoin (l : Layout) : Type 0 where
  pub base : String → String
  pub chunk_base :
      (ds : List String) (c : String)
      → is_valid l c ≡ true
      → base (l.join ds (c ++ ".chunk")) ≡ c ++ ".chunk"
  pub temp_base :
      (ds : List String) (c : String)
      → is_valid l c ≡ true
      → base (l.join ds (c ++ "..tmp")) ≡ c ++ "..tmp"

pub chunk_path_inj :
    (l : Layout) (j : IsJoin l) (c d : String)
    → is_valid l c ≡ true
    → is_valid l d ≡ true
    → chunk_path l c ≡ chunk_path l d
    → c ≡ d
unfolding chunk_path
chunk_path_inj l j c d vc vd e =
    append_cancel_right c d ".chunk" (sym (j.chunk_base _ c vc) ∙ ap j.base e ∙ j.chunk_base _ d vd)

-- The code of the last character.
last_code : String → ℕ → ℕ
last_code String.[] n = n
last_code (String.◌∷◌ c s) n = last_code s (code c)

last_code-append : (s t : String) (n : ℕ) → last_code (s ++ t) n ≡ last_code t (last_code s n)
unfolding last_code
last_code-append String.[] t n = ap (λ x. last_code x n) (nil-append t)
last_code-append (String.◌∷◌ c s) t n =
    ap (λ x. last_code x n) (cons-append c s t) ∙ last_code-append s t (code c)

pub temp_path-ne-chunk_path :
    (l : Layout) (j : IsJoin l) (c d : String)
    → is_valid l c ≡ true
    → is_valid l d ≡ true
    → temp_path l c ≢ chunk_path l d
unfolding temp_path chunk_path last_code
temp_path-ne-chunk_path l j c d vc vd e =
    let same : c ++ "..tmp" ≡ d ++ ".chunk" =
      sym (j.temp_base _ c vc) ∙ ap j.base e ∙ j.chunk_base _ d vd in
    let ends = ap (λ s. last_code s 0) same in
    ground (arith, ends, last_code-append c "..tmp" 0, last_code-append d ".chunk" 0)
