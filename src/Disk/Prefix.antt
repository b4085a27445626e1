-- ===== src/Disk/Prefix.antt =====
-- src/cachau/disk.py: the loop of `_read_metadata` and the file that it reads from.
use cachau.Disk.Header.{
  newline, split_line, parse_header, count_newlines, read_prefix, header_metadata, without_payload,
  header_chunk, header_limit, header_rounds,
}
use cachau.Disk.Json.{Codec}
use cachau.Prelude.{
  ℕ, zero, suc, ◌+◌, ◌*◌, ◌≤◌, List, [], ◌∷◌, ◌++◌, false, ◌&&◌, some, ltb, ◌==◌, length, take,
  drop, ◌≡◌, refl, sym, ap, ◌∙◌, ◌⊎◌, inl, inr, arith, Bool-cases, length-append,
}
use mathlib.Core.List.{append-nil, append_assoc}

take-append-drop : (n : ℕ) (l : List ℕ) → take n l ++ drop n l ≡ l
take-append-drop zero l = refl
take-append-drop (suc n) [] = refl
take-append-drop (suc n) (x ∷ l) = ap (λ t. x ∷ t) (take-append-drop n l)

-- A cut takes all, or as many as it is told.
take_all : (n : ℕ) (l : List ℕ) → (drop n l ≡ []) ⊎ (length (take n l) ≡ n)
take_all zero l = inr refl
take_all (suc n) [] = inl refl
take_all (suc n) (x ∷ l) = elim (take_all n l) [ inl e ↦ inl e | inr e ↦ inr (ap suc e) ]

take-append : (n : ℕ) (p s : List ℕ) → n ≤ length p → take n (p ++ s) ≡ take n p
take-append zero p s h = refl
take-append (suc n) [] s h = absurd (omega arith)
take-append (suc n) (x ∷ p) s h = ap (λ t. x ∷ t) (take-append n p s (omega arith))

count_newlines-take : (n : ℕ) (p : List ℕ) → count_newlines (take n p) ≤ count_newlines p
unfolding count_newlines
count_newlines-take zero p = omega arith
count_newlines-take (suc n) [] = omega arith
count_newlines-take (suc n) (x ∷ p) = omega (arith, count_newlines-take n p)

empty_of_length : (s : List ℕ) → length s ≡ 0 → s ≡ []
empty_of_length [] e = refl
empty_of_length (x ∷ s) e = absurd (omega arith)

-- What the loop read: a part `p` of the file, the rest `s`, and why it stopped.
record Read (limit : ℕ) (content p : List ℕ) : Type 0 where
  pub s : List ℕ
  pub whole : p ++ s ≡ content
  pub enough : (s ≡ []) ⊎ ((2 ≤ count_newlines p) ⊎ (limit ≤ length p))

stop : (limit n m : ℕ) → (ltb n 2 && ltb m limit) ≡ false → (2 ≤ n) ⊎ (limit ≤ m)
stop limit n m h = elim (Bool-cases (ltb n 2)) [
  | inl e ↦ inr (ground arith)
  | inr e ↦ inl (ground arith)
]

suc-mul : (n m : ℕ) → suc n * m ≡ m + n * m
suc-mul n m = grind arith

-- After one more chunk there are rounds enough again.
room :
    (fuel chunk limit : ℕ) (prefix : List ℕ) (b : ℕ) (rest : List ℕ)
    → (b ∷ rest ≡ []) ⊎ (limit ≤ length prefix + suc fuel * chunk)
    → (drop chunk (b ∷ rest) ≡ [])
      ⊎ (limit ≤ length (prefix ++ take chunk (b ∷ rest)) + fuel * chunk)
room fuel chunk limit prefix b rest (inl e) = cc
room fuel chunk limit prefix b rest (inr h) = elim (take_all chunk (b ∷ rest)) [
  | inl e ↦ inl e
  | inr e ↦
      inr (omega (arith, e, suc-mul fuel chunk, length-append {0} prefix (take chunk (b ∷ rest))))
]

longer :
    (chunk limit : ℕ) (prefix l : List ℕ) {p : List ℕ}
    → Read limit ((prefix ++ take chunk l) ++ drop chunk l) p
    → Read limit (prefix ++ l) p
longer chunk limit prefix l r = record {
  s = r.s;
  whole =
      r.whole
      ∙ append_assoc prefix (take chunk l) (drop chunk l)
      ∙ ap (λ t. prefix ++ t) (take-append-drop chunk l);
  enough = r.enough;
}

read_prefix-Read :
    (fuel chunk limit : ℕ) (prefix rest : List ℕ)
    → (rest ≡ []) ⊎ (limit ≤ length prefix + fuel * chunk)
    → Read limit (prefix ++ rest) (read_prefix fuel chunk limit prefix rest)
unfolding read_prefix
read_prefix-Read zero chunk limit prefix rest h = record {
  s = rest;
  whole = refl;
  enough = elim h [ inl e ↦ inl e | inr e ↦ inr (inr (omega arith)) ];
}
read_prefix-Read (suc fuel) chunk limit prefix [] h = record {
  s = [];
  whole = refl;
  enough = inl refl;
}
read_prefix-Read (suc fuel) chunk limit prefix (b ∷ rest) h =
    elim (Bool-cases (ltb (count_newlines prefix) 2 && ltb (length prefix) limit)) [
      | inr e ↦ rw e (record { s = b ∷ rest; whole = refl; enough = inr (stop limit _ _ e) })
      | inl e ↦ rw e (
          longer chunk limit prefix (b ∷ rest) (
            read_prefix-Read fuel chunk limit (prefix ++ take chunk (b ∷ rest))
              (drop chunk (b ∷ rest)) (room fuel chunk limit prefix b rest h)))
    ]

split_line-append :
    (p s : List ℕ)
    → 1 ≤ count_newlines p
    → (line : List ℕ) × (after : List ℕ) × (split_line p ≡ some (line, after))
      × (split_line (p ++ s) ≡ some (line, after ++ s))
      × (count_newlines p ≡ count_newlines after + 1)
unfolding split_line count_newlines
split_line-append [] s h = absurd (omega arith)
split_line-append (b ∷ p) s h = elim (Bool-cases (b == newline)) [
  | inl e ↦ ([], p, rw e refl, rw e refl, rw e (omega arith))
  | inr e ↦
      let (line, after, q, r, n) = split_line-append p s (ground arith) in
      (b ∷ line, after, rw (e, q) refl, rw (e, r) refl, rw e (omega (arith, n)))
]

-- What stands behind the two lines of the header does not matter to it.
parse_header-append :
    {V : Type 0} (codec : Codec V) (p s : List ℕ)
    → 2 ≤ count_newlines p
    → without_payload (parse_header codec (p ++ s)) ≡ without_payload (parse_header codec p)
unfolding parse_header
parse_header-append codec p s h =
    let (line, after, q, r, n) = split_line-append p s (omega arith) in
    let (line', after', q', r', n') = split_line-append after s (omega (arith, n)) in
    rw (q, r) (ground (arith, q', r'))

-- The header ends within what the loop reads at most, or the file is no longer than that.
abbrev pub IsWithin : ℕ → List ℕ → Type 0
IsWithin limit content = (length content ≤ limit) ⊎ (2 ≤ count_newlines (take limit content))

same_of_Read :
    {V : Type 0} (codec : Codec V) (limit : ℕ) (content p : List ℕ)
    → Read limit content p
    → IsWithin limit content
    → without_payload (parse_header codec p) ≡ without_payload (parse_header codec content)
same_of_Read codec limit content p r h = elim r.enough [
  | inl e ↦
      ap (λ t. without_payload (parse_header codec t))
        (sym (append-nil p) ∙ ap (λ t. p ++ t) (sym e) ∙ r.whole)
  | inr (inl two) ↦
      sym (parse_header-append codec p r.s two)
      ∙ ap (λ t. without_payload (parse_header codec t)) r.whole
  | inr (inr long) ↦ elim h [
    | inl short ↦
        let e : r.s ≡ [] =
          empty_of_length r.s
            (omega (arith, long, short, ap length r.whole, length-append {0} p r.s)) in
        ap (λ t. without_payload (parse_header codec t))
          (sym (append-nil p) ∙ ap (λ t. p ++ t) (sym e) ∙ r.whole)
    | inr two ↦
        sym (
          parse_header-append codec p r.s (
            omega (
              arith,
              two,
              count_newlines-take limit p,
              ap (λ t. count_newlines (take limit t)) r.whole,
              ap count_newlines (take-append limit p r.s long),
            )))
        ∙ ap (λ t. without_payload (parse_header codec t)) r.whole
  ]
]

-- Reading no more than the header gives the same metadata, or the same failure, as reading the
-- whole file, where the header ends within `_HEADER_LIMIT` or the file does.
pub header_metadata-parse_header :
    {V : Type 0} (codec : Codec V) (content : List ℕ)
    → IsWithin header_limit content
    → header_metadata codec content ≡ without_payload (parse_header codec content)
unfolding header_metadata
header_metadata-parse_header codec content h =
    same_of_Read codec header_limit content _
      (read_prefix-Read header_rounds header_chunk header_limit [] content (inr (omega arith))) h
