-- ===== src/Net/Pairing/Pins.antt =====
-- pairing.rs: PINs drawn at random, and PINs typed in.
use win_xtend.Prelude.{
  ℕ, zero, suc, ◌+◌, ◌%◌, ◌≤◌, ◌<◌, ◌≡◌, refl, sym, ap, ap₂, ◌∙◌, true, false, ◌==◌, ltb,
  if◌then◌else◌, Option, none, some, List, [], ◌∷◌, ◌++◌, map, length, keep, concat, take, all_of,
  arith, Bool-cases, inl, inr, length-append, length-take,
}
use mathlib.Core.List.{append-nil, append_assoc}
use win_xtend.Net.Pairing.{
  Result, ok, Pin, fill_digits, generate_from, generate, is_ascii_digit, parse,
}

-- The bytes that count, as digits: each below 250, so that no digit is likelier than another.
abbrev pub unbiased : List ℕ → List ℕ
unbiased bytes = map (λ b. 48 + b % 10) (keep (λ b. ltb b 250) bytes)

unbiased-append : (xs ys : List ℕ) → unbiased (xs ++ ys) ≡ unbiased xs ++ unbiased ys
unbiased-append [] ys = refl
unbiased-append (x ∷ xs) ys = elim (Bool-cases (ltb x 250)) [
  | inl low ↦ rw low (ap (λ t. (48 + x % 10) ∷ t) (unbiased-append xs ys))
  | inr high ↦ rw high (unbiased-append xs ys)
]

take_full : (n : ℕ) (xs ys : List ℕ) → length xs ≡ n → take n (xs ++ ys) ≡ xs
take_full zero [] ys h = refl
take_full zero (x ∷ xs) ys h = absurd (omega arith)
take_full (suc n) [] ys h = absurd (omega arith)
take_full (suc n) (x ∷ xs) ys h = ap (λ t. x ∷ t) (take_full n xs ys (omega arith))

take_short : (n : ℕ) (xs : List ℕ) → length xs ≤ n → take n xs ≡ xs
take_short zero [] h = refl
take_short zero (x ∷ xs) h = absurd (omega arith)
take_short (suc n) [] h = refl
take_short (suc n) (x ∷ xs) h = ap (λ t. x ∷ t) (take_short n xs (omega arith))

take-append-take : (n : ℕ) (xs ys : List ℕ) → take n (take n xs ++ ys) ≡ take n (xs ++ ys)
take-append-take zero xs ys = refl
take-append-take (suc n) [] ys = refl
take-append-take (suc n) (x ∷ xs) ys = ap (λ t. x ∷ t) (take-append-take n xs ys)

-- One more byte, when there is room.
fill_one :
    (byte : ℕ) (buf digits : List ℕ)
    → (if ltb byte 250 then digits ++ (48 + byte % 10) ∷ [] else digits) ++ unbiased buf
      ≡ digits ++ unbiased (byte ∷ buf)
fill_one byte buf digits = elim (Bool-cases (ltb byte 250)) [
  | inl low ↦ rw low (append_assoc digits ((48 + byte % 10) ∷ []) (unbiased buf))
  | inr high ↦ rw high refl
]

room :
    (byte : ℕ) (digits : List ℕ)
    → length digits < 6
    → length (if ltb byte 250 then digits ++ (48 + byte % 10) ∷ [] else digits) ≤ 6
room byte digits h = elim (Bool-cases (ltb byte 250)) [
  | inl low ↦ rw low (omega (arith, length-append digits ((48 + byte % 10) ∷ [])))
  | inr high ↦ rw high (omega arith)
]

fill_digits_lem :
    (buf digits : List ℕ)
    → length digits ≤ 6
    → fill_digits buf digits ≡ take 6 (digits ++ unbiased buf)
unfolding fill_digits
fill_digits_lem [] digits h = sym (ap (take 6) (append-nil digits) ∙ take_short 6 digits h)
fill_digits_lem (byte ∷ buf) digits h = elim (Bool-cases (length digits == 6)) [
  | inl full ↦ rw full (sym (take_full 6 digits (unbiased (byte ∷ buf)) (ground arith)))
  | inr short ↦ rw short (
      fill_digits_lem buf (if ltb byte 250 then digits ++ (48 + byte % 10) ∷ [] else digits)
        (room byte digits (ground arith))
      ∙ ap (take 6) (fill_one byte buf digits))
]

-- What the bytes drawn come to: a PIN, or a loop that goes on.
abbrev pub drawn : List ℕ → Option (Result Pin)
drawn xs = if ltb (length xs) 6 then none else some (ok (take 6 xs))

drawn-take : (xs ys : List ℕ) → drawn (take 6 xs ++ ys) ≡ drawn (xs ++ ys)
drawn-take xs ys =
    ap₂ (λ b p. if b then none else some (ok p))
      (ground (arith, length-append (take 6 xs) ys, length-append xs ys, length-take 6 xs))
      (take-append-take 6 xs ys)

drawn-full :
    (xs ys : List ℕ) → ltb (length xs) 6 ≡ false → length xs ≤ 6 → some (ok xs) ≡ drawn (xs ++ ys)
drawn-full xs ys full h =
    rw (short (length (xs ++ ys)) (omega (arith, length-append xs ys, below (length xs) full)))
      (ap (λ p. some (ok p)) (sym (take_full 6 xs ys (omega (arith, below (length xs) full)))))
  where
    below : (n : ℕ) → ltb n 6 ≡ false → 6 ≤ n
    below n e = ground arith

    short : (n : ℕ) → 6 ≤ n → ltb n 6 ≡ false
    short n e = ground arith

generate_from_lem :
    (bufs : List (List ℕ)) (digits : List ℕ)
    → length digits ≤ 6
    → generate_from (map some bufs) digits ≡ drawn (digits ++ unbiased (concat bufs))
unfolding generate_from
generate_from_lem [] digits h =
    rw (append-nil digits)
      (ap (λ p. if ltb (length digits) 6 then none else some (ok p)) (sym (take_short 6 digits h)))
generate_from_lem (buf ∷ bufs) digits h = elim (Bool-cases (ltb (length digits) 6)) [
  | inl short ↦ rw short (
      ap (generate_from (map some bufs)) (fill_digits_lem buf digits h)
      ∙ generate_from_lem bufs (take 6 (digits ++ unbiased buf))
          (omega (arith, length-take 6 (digits ++ unbiased buf)))
      ∙ drawn-take (digits ++ unbiased buf) (unbiased (concat bufs))
      ∙ ap drawn (append_assoc digits (unbiased buf) (unbiased (concat bufs)))
      ∙ ap (λ t. drawn (digits ++ t)) (sym (unbiased-append buf (concat bufs))))
  | inr full ↦ rw full (drawn-full digits (unbiased (concat (buf ∷ bufs))) full h)
]

unbiased-all_digits : (n : ℕ) (xs : List ℕ) → all_of is_ascii_digit (take n (unbiased xs)) ≡ true
unbiased-all_digits zero xs = refl
unbiased-all_digits (suc n) [] = refl
unbiased-all_digits (suc n) (x ∷ xs) = elim (Bool-cases (ltb x 250)) [
  | inl low ↦ rw (low, digit x) (unbiased-all_digits n xs)
  | inr high ↦ rw high (unbiased-all_digits (suc n) xs)
]
  where
    digit : (x : ℕ) → is_ascii_digit (48 + x % 10) ≡ true
    digit x = ground arith

parse-digits : (s : List ℕ) → length s ≡ 6 → all_of is_ascii_digit s ≡ true → parse s ≡ ok s
unfolding parse
parse-digits s n d = rw (n, d) refl

-- Once the buffers drawn hold six bytes below 250, drawing stops: the PIN is the first six of them,
-- each as the ASCII digit of its remainder by 10, whatever buffers they came in. And it is a PIN
-- that can be typed back in.
pub generate-parse :
    (bufs : List (List ℕ))
    → 6 ≤ length (unbiased (concat bufs))
    → (generate (map some bufs) ≡ some (ok (take 6 (unbiased (concat bufs)))))
      × (parse (take 6 (unbiased (concat bufs))) ≡ ok (take 6 (unbiased (concat bufs))))
unfolding generate
generate-parse bufs h = (
  generate_from_lem bufs [] (omega arith) ∙ enough,
  parse-digits (take 6 (unbiased (concat bufs)))
      (omega (arith, length-take 6 (unbiased (concat bufs)))) (unbiased-all_digits 6 (concat bufs)),
)
  where
    enough : drawn (unbiased (concat bufs)) ≡ some (ok (take 6 (unbiased (concat bufs))))
    enough = ground arith
