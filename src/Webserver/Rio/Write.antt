-- ===== src/Webserver/Rio/Write.antt =====
-- rio_write of webserver/common.c: all bytes get to the descriptor, in their order.
use ece344_os.Prelude.{
  ℕ, zero, suc, ◌+◌, ◌≤◌, ◌<◌, ◌≡◌, refl, sym, ap, ◌∙◌, true, List, [], ◌∷◌, ◌++◌, some, arith,
  length,
}
use ece344_os.Webserver.Rio.{Sent, took, stopped, first_bytes, other_bytes, write_out, rio_write}

-- What write does for a descriptor without errors: `received` are the bytes that it has got, and `left`
-- bounds the number of times that a signal will interrupt the call.
pub data Takes {S : Type 0} (received : S → List ℕ) (left : S → ℕ) (bs : List ℕ) (s : S)
    (r : Sent × S) : Type 0 where
  pauses :
      (s' : S)
      → r ≡ (stopped true, s')
      → received s' ≡ received s
      → left s' < left s
      → Takes received left bs s r
  takes :
      (n : ℕ) (s' : S)
      → r ≡ (took n, s')
      → 0 < n
      → n ≤ length bs
      → received s' ≡ received s ++ first_bytes n bs
      → left s' ≤ left s
      → Takes received left bs s r

append_assoc : (xs ys zs : List ℕ) → (xs ++ ys) ++ zs ≡ xs ++ (ys ++ zs)
append_assoc [] ys zs = refl
append_assoc (x ∷ xs) ys zs = ap (◌∷◌ x) (append_assoc xs ys zs)

append_nil : (xs : List ℕ) → xs ++ [] ≡ xs
append_nil [] = refl
append_nil (x ∷ xs) = ap (◌∷◌ x) (append_nil xs)

whole : (n : ℕ) (bs : List ℕ) → first_bytes n bs ++ other_bytes n bs ≡ bs
whole zero bs = refl
whole (suc n) [] = refl
whole (suc n) (b ∷ bs) = ap (◌∷◌ b) (whole n bs)

length-other_bytes :
    (n : ℕ) (bs : List ℕ) → n ≤ length bs → length (other_bytes n bs) + n ≡ length bs
length-other_bytes zero bs h = omega arith
length-other_bytes (suc n) [] h = absurd (omega arith)
length-other_bytes (suc n) (b ∷ bs) h = omega (arith, length-other_bytes n bs (omega arith))

module _ {S : Type 0} (write : List ℕ → S → Sent × S) (received : S → List ℕ) (left : S → ℕ)
    (sound : (b : ℕ) (bs : List ℕ) (s : S)
      → Takes received left (b ∷ bs) s (write (b ∷ bs) s)) where
  write_out-all :
      (fuel : ℕ) (bs : List ℕ) (s : S)
      → length bs + left s ≤ fuel
      → (s' : S) × (write_out write fuel bs s ≡ some (true, s')) × (received s' ≡ received s ++ bs)
  unfolding write_out
  write_out-all fuel [] s h = (s, refl, sym (append_nil (received s)))
  write_out-all zero (b ∷ bs) s h = absurd (omega arith)
  write_out-all (suc k) (b ∷ bs) s h = elim (sound b bs s) [
    | pauses s' e same l ↦
        let (t, f, g) = write_out-all k (b ∷ bs) s' (omega arith) in
        (t, ground (arith, e, f), g ∙ ap (λ x. x ++ (b ∷ bs)) same)
    | takes n s' e pos le got l ↦
        let rest = other_bytes n (b ∷ bs) in
        let size = length-other_bytes n (b ∷ bs) le in
        let (t, f, g) = write_out-all k rest s' (omega (arith, size, h, l, pos)) in
        (
          t,
          ground (arith, e, f),
          g
              ∙ ap (λ x. x ++ rest) got
              ∙ append_assoc (received s) (first_bytes n (b ∷ bs)) rest
              ∙ ap (λ x. received s ++ x) (whole n (b ∷ bs)),
        )
  ]

  -- Where write takes one or more of the bytes that it is given or is interrupted, and the fuel is enough
  -- for the bytes and the interruptions, rio_write returns the number of bytes, and the descriptor has
  -- got all of them, once each and in their order, behind those from before.
  pub rio_write-all :
      (fuel : ℕ) (bs : List ℕ) (s : S)
      → length bs + left s ≤ fuel
      → (s' : S) × (rio_write write fuel bs s ≡ some (some (length bs), s'))
        × (received s' ≡ received s ++ bs)
  unfolding rio_write
  rio_write-all fuel bs s h = let (t, f, g) = write_out-all fuel bs s h in (t, ground (arith, f), g)
