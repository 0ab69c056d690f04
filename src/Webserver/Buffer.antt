-- ===== src/Webserver/Buffer.antt =====
-- send_to_buffer and read_from_buffer of webserver/server_thread.c, as a queue.
use native.Mathlib.Nat.{mod-eq_of_lt, mod-eq-sub-mod}
use ece344_os.Prelude.{
  ℕ, zero, suc, ◌+◌, ◌-◌, ◌%◌, ◌≤◌, ◌<◌, ◌≡◌, ◌≢◌, refl, false, List, [], ◌∷◌, ◌++◌, upd, ◌==◌,
  if◌then◌else◌, arith, Bool-cases, inl, inr, ltb, ◌∙◌, ap,
}
use ece344_os.Webserver.Server.{Server, send_to_buffer, read_from_buffer}

-- An index less than twice the size, brought back into range.
pub mod_wrap : (a m : ℕ) → a < m + m → a % m ≡ (if ltb a m then a else a - m)
mod_wrap a m h = elim (Bool-cases (ltb a m)) [
  | inl e ↦ rw e (mod-eq_of_lt (ground arith))
  | inr e ↦ rw e (
      mod-eq-sub-mod {n = a} {m = m} (ground arith)
      ∙ mod-eq_of_lt {n = a - m} {m = m} (ground arith))
]

-- The `n` descriptors from the index `o` on, in a buffer of `m`.
abbrev pub held : (ℕ → ℕ) → ℕ → ℕ → ℕ → List ℕ
held buf m o zero = []
held buf m o (suc n) = buf o ∷ held buf m ((o + 1) % m) n

module _ (buf : ℕ → ℕ) (m i x : ℕ) where
  -- A write just behind the held part extends it.
  held-upd :
      (n o : ℕ)
      → o < m
      → n < m
      → i ≡ (o + n) % m
      → held (upd buf i x) m o (suc n) ≡ held buf m o n ++ (x ∷ [])
  held-upd zero o ho hn e =
      let w = mod_wrap (o + 0) m (omega arith) in let f : i ≡ o = ground arith in ground arith
  held-upd (suc n) o ho hn e =
      let w = mod_wrap (o + suc n) m (omega arith) in
      let v = mod_wrap (o + 1) m (omega arith) in
      let o' : (o + 1) % m < m = ground arith in
      let w' = mod_wrap ((o + 1) % m + n) m (omega arith) in
      let e' : i ≡ ((o + 1) % m + n) % m = ground arith in
      let ne : (o == i) ≡ false = ground arith in
      rw ne (ap (◌∷◌ (buf o)) (held-upd n ((o + 1) % m) o' (omega arith) e'))

-- The requests in the buffer, oldest first.
abbrev pub contents : Server → List ℕ
contents sv = held sv.buffer sv.max_requests sv.out sv.request_counter

-- The indices belong together.
pub record IsRing (sv : Server) : Type 0 where
  pub out_range : sv.out < sv.max_requests
  pub bounded : sv.request_counter ≤ sv.max_requests
  pub place : sv.inn ≡ (sv.out + sv.request_counter) % sv.max_requests

held_pos :
    (buf : ℕ → ℕ) (m o n : ℕ) → n ≢ 0 → held buf m o n ≡ buf o ∷ held buf m ((o + 1) % m) (n - 1)
held_pos buf m o zero h = absurd (h refl)
held_pos buf m o (suc n) h =
    ap (λ k. held buf m o (suc k)) (let e : n ≡ suc n - 1 = omega arith in e)

held_plus : (buf : ℕ → ℕ) (m o n : ℕ) → held buf m o (n + 1) ≡ held buf m o (suc n)
held_plus buf m o n = let e : n + 1 ≡ suc n = omega arith in ap (held buf m o) e

-- On a buffer with room, send_to_buffer adds the descriptor behind the requests that are there.
pub send-contents :
    (sv : Server) (connfd : ℕ)
    → IsRing sv
    → sv.request_counter < sv.max_requests
    → (contents (send_to_buffer sv connfd) ≡ contents sv ++ (connfd ∷ []))
      × IsRing (send_to_buffer sv connfd)
unfolding send_to_buffer
send-contents sv connfd v h =
    let m = sv.max_requests in
    let c = sv.request_counter in
    let w = mod_wrap (sv.out + c) m (omega (arith, v.out_range)) in
    let w' = mod_wrap (sv.inn + 1) m (ground (arith, v.out_range, v.place)) in
    let w'' = mod_wrap (sv.out + (c + 1)) m (omega (arith, v.out_range)) in
    let b = upd sv.buffer sv.inn connfd in
    let l = held_plus b m sv.out c in
    let e = held-upd sv.buffer m sv.inn connfd c sv.out v.out_range h v.place in
    (
      ground (arith, l, e),
      record {
        out_range = ground (arith, v.out_range);
        bounded = ground arith;
        place = ground (arith, v.place, v.out_range);
      },
    )

-- On a buffer that is not empty, read_from_buffer takes the oldest request and leaves the rest.
pub read-contents :
    (sv : Server)
    → IsRing sv
    → sv.request_counter ≢ 0
    → (contents sv ≡ (read_from_buffer sv).0 ∷ contents (read_from_buffer sv).1)
      × IsRing (read_from_buffer sv).1
unfolding read_from_buffer
read-contents sv v h =
    let m = sv.max_requests in
    let c = sv.request_counter in
    let o = v.out_range in
    let b = v.bounded in
    let w = mod_wrap (sv.out + c) m (omega arith) in
    let w' = mod_wrap (sv.out + 1) m (omega arith) in
    let w'' = mod_wrap ((sv.out + 1) % m + (c - 1)) m (ground arith) in
    let e = held_pos sv.buffer m sv.out c h in
    (
      ground (arith, e),
      record { out_range = ground arith; bounded = ground arith; place = ground (arith, v.place) },
    )
