-- ===== src/Webserver/Serving/Moves.antt =====
-- Each step of a request (webserver/server_thread.c): what it leaves in the cache.
use ece344_os.Prelude.{
  ℕ, ◌+◌, ◌-◌, ◌≤◌, ◌<◌, ◌≡◌, refl, sym, ap, ◌∙◌, List, Option, none, some, ◌==◌, ltb,
  if◌then◌else◌, arith, inl, inr, Bool-cases,
}
use ece344_os.Webserver.Cache.{Data, File, Cache, request_begin, request_insert, request_end}
use ece344_os.Webserver.Cache.Insert.{IsWell, new_file, filled}
use ece344_os.Webserver.Cache.Requests.{with_active, retouched, retouched-IsWell, set_active-eq}
use ece344_os.Webserver.Request.{Stat, ReadFile, refuses, has_file, fails, request_readfile}
use ece344_os.Webserver.Serving.{
  Phase, looking, reading, inserting, sending_cached, sending_own, finished, request_step,
}
use ece344_os.Webserver.Serving.Steps.{
  uses, endless, present, absent, cache_lookup-Looks, faults, existing, refused, added,
  cache_insert-Inserted, enter-eq,
}

-- The use that a request has of a slot.
abbrev pub use_of : ℕ → Phase → ℕ
use_of slot (sending_cached j d) = if j == slot then 1 else 0
use_of slot (sending_own (some j) d) = if j == slot then 1 else 0
use_of slot _ = 0

-- The file that a request uses is in its slot. If it sends the data of a file in the cache, they are
-- the data of that file.
abbrev pub Served : Cache → Phase → Type 0
Served c (sending_cached j d) = (f : File) × (c.table j ≡ some f) × (f.content ≡ d)
Served c (sending_own (some j) d) = (f : File) × (c.table j ≡ some f)
Served c _ = Unit {0}

-- The files that stay in their slots with their data.
abbrev pub Kept : Cache → Cache → Type 0
Kept c c' =
    (slot : ℕ) (f : File)
    → c.table slot ≡ some f
    → (g : File) × (c'.table slot ≡ some g) × (g.content ≡ f.content)

-- What a step leaves, unless it does not end or reads freed memory.
pub data Moves (now : Phase) (c : Cache) (r : Option (Phase × Cache)) : Type 0 where
  stuck : r ≡ none → Moves now c r
  moves :
      (next : Phase) (c' : Cache)
      → r ≡ some (next, c')
      → IsWell c'
      → c'.table_size ≡ c.table_size
      → ((slot : ℕ)
          → uses (c'.table slot) + use_of slot now ≡ uses (c.table slot) + use_of slot next)
      → Kept c c'
      → Served c' next
      → Moves now c r

-- Another number of users for the file in a slot.
module _ (c : Cache) (j : ℕ) (f : File) (e : c.table j ≡ some f) (n : ℕ) (queue : List ℕ) where
  abbrev c₁ : Cache
  c₁ = retouched c j f n queue

  retouched-uses :
      (slot : ℕ) → uses (c₁.table slot) ≡ (if slot == j then n else uses (c.table slot))
  retouched-uses slot = ground arith

  retouched-Kept : Kept c c₁
  retouched-Kept slot g h = elim (Bool-cases (slot == j)) [
    | inl y ↦
        let same : some f ≡ some g = sym e ∙ ground (arith, y, h) in
        (with_active f n, ground (arith, y), ground (arith, same))
    | inr m ↦ (g, ground (arith, m, h), refl)
  ]

stays :
    (now next : Phase) (c : Cache)
    → IsWell c
    → ((slot : ℕ) → use_of slot now ≡ 0)
    → ((slot : ℕ) → use_of slot next ≡ 0)
    → Served c next
    → (r : Option (Phase × Cache)) → r ≡ some (next, c)
    → Moves now c r
stays now next c w a b v r e =
    moves next c e w refl (λ slot. omega (arith, a slot, b slot)) (λ slot f h. (f, h, refl)) v

looking-Moves :
    (stat : List ℕ → Option Stat) (contents : List ℕ → ℕ → Option (List ℕ)) (name : List ℕ)
    (c : Cache)
    → IsWell c
    → Moves (looking name) c (request_step stat contents (looking name) c)
unfolding request_step request_begin
looking-Moves stat contents name c w = elim (Bool-cases (ltb 0 c.max_size)) [
  | inr z ↦ stays (looking name) (reading name) c w (λ s. refl) (λ s. refl) tt _ (ground (arith, z))
  | inl z ↦ elim (cache_lookup-Looks c name) [
    | endless e ↦ stuck (ground (arith, z, e))
    | absent j e _ _ ↦
        stays (looking name) (reading name) c w (λ s. refl) (λ s. refl) tt _ (ground (arith, z, e))
    | present j f e h ↦
        let (q, g) = enter-eq c j f name h in
        let c' = retouched c j f (f.active + 1) q in
        let there : c'.table j ≡ some (with_active f (f.active + 1)) = ground arith in
        moves (sending_cached j f.content) c' (ground (arith, z, e, g, there))
          (retouched-IsWell c j f (f.active + 1) q h w) refl (λ slot. ground (arith, h))
          (retouched-Kept c j f h (f.active + 1) q) (with_active f (f.active + 1), there, refl)
  ]
]

reading-Moves :
    (stat : List ℕ → Option Stat) (contents : List ℕ → ℕ → Option (List ℕ)) (name : List ℕ)
    (c : Cache)
    → IsWell c
    → Moves (reading name) c (request_step stat contents (reading name) c)
unfolding request_step
reading-Moves stat contents name c w = read (request_readfile stat contents name) refl
  where
    read :
        (file : ReadFile)
        → request_readfile stat contents name ≡ file
        → Moves (reading name) c (request_step stat contents (reading name) c)
    read (refuses why) e =
        stays (reading name) finished c w (λ s. refl) (λ s. refl) tt _ (ground (arith, e))
    read (has_file d) e =
        stays (reading name) (inserting d) c w (λ s. refl) (λ s. refl) tt _ (ground (arith, e))
    read fails e = stuck (ground (arith, e))

-- A file in an empty slot.
filled-Kept : (c : Cache) (d : Data) (j : ℕ) → c.table j ≡ none → Kept c (filled c d j)
filled-Kept c d j e slot f h = (f, ground (arith, e, h), refl)

inserting-Moves :
    (stat : List ℕ → Option Stat) (contents : List ℕ → ℕ → Option (List ℕ)) (d : Data) (c : Cache)
    → IsWell c
    → 0 < c.table_size
    → Moves (inserting d) c (request_step stat contents (inserting d) c)
unfolding request_step request_insert
inserting-Moves stat contents d c w pos = elim (Bool-cases (ltb 0 c.max_size)) [
  | inr z ↦
      stays (inserting d) (sending_own none d) c w (λ s. refl) (λ s. refl) tt _ (ground (arith, z))
  | inl z ↦ elim (cache_insert-Inserted c d w pos) [
    | faults e ↦ stuck (ground (arith, z, e))
    | refused e ↦
        stays (inserting d) (sending_own none d) c w (λ s. refl) (λ s. refl) tt _
          (ground (arith, z, e))
    | existing j f e h ↦
        let (q, g) = enter-eq c j f d.file_name h in
        moves (sending_own (some j) d) (retouched c j f (f.active + 1) q) (ground (arith, z, e, g))
          (retouched-IsWell c j f (f.active + 1) q h w) refl (λ slot. ground (arith, h))
          (retouched-Kept c j f h (f.active + 1) q) (with_active f (f.active + 1), ground arith)
    | added j e h w' ↦
        let c₁ = filled c d j in
        let there : c₁.table j ≡ some (new_file d) = ground arith in
        let (q, g) = enter-eq c₁ j (new_file d) d.file_name there in
        moves (sending_own (some j) d) (retouched c₁ j (new_file d) 1 q) (ground (arith, z, e, g))
          (retouched-IsWell c₁ j (new_file d) 1 q there w') refl (λ slot. ground (arith, h))
          (λ slot f k.
            let (f', k', s) = filled-Kept c d j h slot f k in
            let (f'', k'', s') = retouched-Kept c₁ j (new_file d) there 1 q slot f' k' in
            (f'', k'', s' ∙ s))
          (with_active (new_file d) 1, ground arith)
  ]
]

-- The end of a use.
ended-Moves :
    (now : Phase) (j : ℕ) (f : File) (c : Cache)
    → IsWell c
    → c.table j ≡ some f
    → ((slot : ℕ) → use_of slot now ≡ (if j == slot then 1 else 0))
    → 0 < f.active
    → (r : Option (Phase × Cache)) → r ≡ some (finished, request_end (some j) c)
    → Moves now c r
unfolding request_end
ended-Moves now j f c w e u pos r eq =
    let c' = retouched c j f (f.active - 1) c.queue in
    moves finished c' (eq ∙ ap (λ x. some (finished, x)) (set_active-eq (λ n. n - 1) j c f e))
      (retouched-IsWell c j f (f.active - 1) c.queue e w) refl (λ slot. ground (arith, e, u slot))
      (retouched-Kept c j f e (f.active - 1) c.queue) tt

-- A use that a request has is counted by the file.
active_pos :
    (c : Cache) (j : ℕ) (f : File) (n : ℕ)
    → c.table j ≡ some f
    → 1 ≤ n
    → n ≤ uses (c.table j)
    → 0 < f.active
active_pos c j f n e a b = ground (arith, e, a, b)

-- Each step of a request that has its file, and whose use is counted.
pub request_step-Moves :
    (stat : List ℕ → Option Stat) (contents : List ℕ → ℕ → Option (List ℕ)) (now : Phase)
    (c : Cache)
    → IsWell c
    → 0 < c.table_size
    → Served c now
    → ((slot : ℕ) → use_of slot now ≤ uses (c.table slot))
    → Moves now c (request_step stat contents now c)
unfolding request_step request_end
request_step-Moves stat contents (looking name) c w pos v u = looking-Moves stat contents name c w
request_step-Moves stat contents (reading name) c w pos v u = reading-Moves stat contents name c w
request_step-Moves stat contents (inserting d) c w pos v u = inserting-Moves stat contents d c w pos
request_step-Moves stat contents (sending_cached j d) c w pos (f, e, _) u =
    ended-Moves (sending_cached j d) j f c w e (λ slot. refl)
      (active_pos c j f 1 e (omega arith) (ground (arith, u j))) _ refl
request_step-Moves stat contents (sending_own none d) c w pos v u =
    stays (sending_own none d) finished c w (λ s. refl) (λ s. refl) tt _ refl
request_step-Moves stat contents (sending_own (some j) d) c w pos (f, e) u =
    ended-Moves (sending_own (some j) d) j f c w e (λ slot. refl)
      (active_pos c j f 1 e (omega arith) (ground (arith, u j))) _ refl
request_step-Moves stat contents finished c w pos v u =
    stays finished finished c w (λ s. refl) (λ s. refl) tt _ refl
