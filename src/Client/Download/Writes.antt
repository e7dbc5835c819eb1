-- ===== src/Client/Download/Writes.antt =====
-- What a chunk of a file leaves in a file of the same length.
use distributed_fs.Common.{
  ℕ, ◌+◌, ◌-◌, ◌*◌, ◌≤◌, ◌<◌, [], ◌∷◌, ◌≡◌, ◌⊎◌, refl, ap, ◌∙◌, Bytes, arith, length, take, drop,
  inl, inr, ltb, leb, if◌then◌else◌, Bool-cases,
}
use distributed_fs.Common.Positions.{
  get_elem?, write_at, get_elem?-write_at, length-write_at, get_elem?-take, get_elem?-drop,
  length-take_le, length-drop_sub,
}

nil_of_length : (xs : Bytes) → length xs ≡ 0 → xs ≡ []
nil_of_length [] h = refl
nil_of_length (x ∷ xs) h = absurd (omega (arith, h))

module _ (file : Bytes) (chunk_size : ℕ) where
  -- The bytes of the file's chunk `i`.
  abbrev pub chunk_at : ℕ → Bytes
  chunk_at i = take chunk_size (drop (i * chunk_size) file)

  -- The place `p` holds the byte of the file.
  abbrev pub IsRight : ℕ → Bytes → Type 0
  IsRight p out = get_elem? out p ≡ get_elem? file p

  chunk_at-fits :
      (i : ℕ)
      → length (chunk_at i) ≡ (
          if leb chunk_size (length file - i * chunk_size)
          then chunk_size
          else length file - i * chunk_size)
  chunk_at-fits i = ground (
    arith,
    length-take_le chunk_size (drop (i * chunk_size) file),
    length-drop_sub (i * chunk_size) file,
  )

  -- A chunk past the end has no bytes, and one that starts in the file fits in it.
  chunk_at-cases :
      (i : ℕ) → (chunk_at i ≡ []) ⊎ (i * chunk_size + length (chunk_at i) ≤ length file)
  chunk_at-cases i = elim (Bool-cases (ltb (i * chunk_size) (length file))) [
    | inl inside ↦ inr (ground (arith, chunk_at-fits i, inside))
    | inr outside ↦ inl (nil_of_length (chunk_at i) (ground (arith, chunk_at-fits i, outside)))
  ]

  pub write_chunk-length :
      (i : ℕ) (out : Bytes)
      → length out ≡ length file
      → length (write_at 0 out (i * chunk_size) (chunk_at i)) ≡ length file
  unfolding write_at
  write_chunk-length i out n = elim (chunk_at-cases i) [
    | inl e ↦ ground (arith, e, n)
    | inr fits ↦ length-write_at 0 out (i * chunk_size) (chunk_at i) (omega arith) ∙ n
  ]

  get_elem?-chunk_at :
      (i p : ℕ)
      → i * chunk_size ≤ p
      → p < i * chunk_size + chunk_size
      → get_elem? (chunk_at i) (p - i * chunk_size) ≡ get_elem? file p
  get_elem?-chunk_at i p lo hi =
      let place : i * chunk_size + (p - i * chunk_size) ≡ p = omega arith in
      ground (
        arith,
        get_elem?-take chunk_size (drop (i * chunk_size) file) (p - i * chunk_size),
        get_elem?-drop (i * chunk_size) file (p - i * chunk_size) ∙ ap (get_elem? file) place,
      )

  pub write_chunk-keeps :
      (i p : ℕ) (out : Bytes)
      → length out ≡ length file
      → IsRight p out
      → IsRight p (write_at 0 out (i * chunk_size) (chunk_at i))
  unfolding write_at
  write_chunk-keeps i p out n r = elim (chunk_at-cases i) [
    | inl e ↦ ground (arith, e, r)
    | inr fits ↦
        let at_p = get_elem?-write_at 0 out (i * chunk_size) (chunk_at i) p (omega arith) in
        let size = chunk_at-fits i in
        elim (Bool-cases (ltb p (i * chunk_size))) [
          | inl before ↦ ground (arith, at_p, before, r)
          | inr after ↦ elim (Bool-cases (ltb p (i * chunk_size + length (chunk_at i)))) [
            | inl within ↦
                let e =
                  get_elem?-chunk_at i p (ground (arith, after)) (ground (arith, within, size)) in
                ground (arith, at_p, after, within, e)
            | inr past ↦ ground (arith, at_p, after, past, r)
          ]
        ]
  ]

  pub write_chunk-sets :
      (i p : ℕ) (out : Bytes)
      → length out ≡ length file
      → p < length file
      → i * chunk_size ≤ p
      → p < i * chunk_size + chunk_size
      → IsRight p (write_at 0 out (i * chunk_size) (chunk_at i))
  write_chunk-sets i p out n h lo hi =
      let size = chunk_at-fits i in
      let at_p =
        get_elem?-write_at 0 out (i * chunk_size) (chunk_at i) p (ground (arith, size, n)) in
      let within : p < i * chunk_size + length (chunk_at i) = ground (arith, size) in
      ground (arith, at_p, within, get_elem?-chunk_at i p lo hi)
