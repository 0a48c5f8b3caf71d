-- ===== src/Base/Copy.antt =====
-- Go's `copy` into a slice of a fixed length, and a payload that is filled by one copy after
-- another.
use mathlib.Core.List.{append_assoc}
use my_proxy.Base.{
  ℕ, suc, ◌+◌, ◌-◌, ◌≤◌, ◌≡◌, refl, sym, ap, ◌∙◌, List, [], ◌∷◌, ◌++◌, Bytes, All, length, take,
  drop, length-append, length-drop, take-append, take_of_length-le, arith,
}

-- `copy(buffer[at:], bs)`: what does not fit is cut off.
unfoldable pub splice : ℕ → Bytes → Bytes → Bytes
splice at bs buffer =
    take at buffer ++ (take (length buffer - at) bs ++ drop (at + length bs) buffer)

-- A copy of some bytes, and the number of bytes that the position moves on.
abbrev pub Field : Type 0
Field = ℕ × Bytes

unfoldable pub write_fields : ℕ → List Field → Bytes → Bytes
write_fields at [] payload = payload
write_fields at ((n, bs) ∷ fields) payload = write_fields (at + n) fields (splice at bs payload)

abbrev pub joined : List Field → Bytes
joined [] = []
joined ((n, bs) ∷ fields) = bs ++ joined fields

abbrev pub total : List Field → ℕ
total [] = 0
total ((n, bs) ∷ fields) = n + total fields

abbrev pub IsExact : Field → Type 0
IsExact (n, bs) = length bs ≡ n

drop-beyond : (front rest : Bytes) (k : ℕ) → drop (length front + k) (front ++ rest) ≡ drop k rest
drop-beyond [] rest k = let same : 0 + k ≡ k = omega arith in ap (λ n. drop n rest) same
drop-beyond (b ∷ front) rest k =
    let same : length (b ∷ front) + k ≡ suc (length front + k) = omega arith in
    ap (λ n. drop n (b ∷ front ++ rest)) same ∙ drop-beyond front rest k

splice-append :
    (front bs rest : Bytes)
    → length bs ≤ length rest
    → splice (length front) bs (front ++ rest) ≡ (front ++ bs) ++ drop (length bs) rest
unfolding splice
splice-append front bs rest h =
    rw
      (
        take-append front rest,
        drop-beyond front rest (length bs),
        take_of_length-le (length (front ++ rest) - length front) bs
            (omega (arith, length-append front rest)),
      )
      (sym (append_assoc front bs (drop (length bs) rest)))

empty_of_length : (bs : Bytes) → length bs ≡ 0 → bs ≡ []
empty_of_length [] h = refl
empty_of_length (b ∷ bs) h = absurd (omega arith)

-- Fields of their own widths that fill the payload stand in it one behind another.
pub write_fields-joined :
    (front : Bytes) (fields : List Field) (rest : Bytes)
    → All IsExact fields
    → length rest ≡ total fields
    → write_fields (length front) fields (front ++ rest) ≡ front ++ joined fields
unfolding write_fields
write_fields-joined front [] rest exact h = ap (λ t. front ++ t) (empty_of_length rest h)
write_fields-joined front ((n, bs) ∷ fields) rest (width, exact) h =
    let at : length front + n ≡ length (front ++ bs) = omega (arith, length-append front bs) in
    ap (λ t. write_fields t fields (splice (length front) bs (front ++ rest))) at
    ∙ ap (write_fields (length (front ++ bs)) fields) (splice-append front bs rest (omega arith))
    ∙ write_fields-joined (front ++ bs) fields (drop (length bs) rest) exact
        (omega (arith, length-drop (length bs) rest))
    ∙ append_assoc front bs (joined fields)
