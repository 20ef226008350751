-- ===== src/Decoder/Arrays.antt =====
-- The array of buffers after the set-up in ExynosVideoDecoder.c.
use exynos.Common.{
  ℕ, zero, suc, ◌*◌, ◌/◌, ◌^◌, ◌<◌, u32, leb, leb→le, arith, ◌+◌, ◌≡◌, refl, ap, Bool, true, false,
  not, ◌&&◌, Option, none, some, List, [], ◌∷◌, ◌==◌, if◌then◌else◌, ◌∙◌,
}
use exynos.Common.Act.{Result, ok, err, crash, pure, ◌>>=◌}
use exynos.Decoder.Buffers.{plane_count}
use exynos.Decoder.Setup.{
  VideoSlot, SetupError, Array, no_array, freed, held, SystemCall, System, Context, Step,
  query_buffer, allocate, request_buffers, slot_size, zeroed, map_planes, map_bufs, leave, map_all,
  fill, setup, bad_param, api_fail, no_mem,
}

unfoldable pub all_registered : List VideoSlot → Bool
all_registered [] = true
all_registered (b ∷ bs) = b.registered && all_registered bs

abbrev pub IsHeld : Array → Type 0
IsHeld (held bs) = Unit
IsHeld _ = ⊥

-- What a set-up of `n` buffers leaves, from a context with `before`.
abbrev pub Leaves : ℕ → Array → Bool → Result (Option SetupError) × Context → Type 0
Leaves n before shared (ok none, x) =
    (bs : List VideoSlot) × (x.array ≡ held bs)
    × (plane_count bs ≡ n)
    × (x.count ≡ n)
    × (shared ≡ false → all_registered bs ≡ true)
Leaves n before shared (ok (some e), x) = ¬ (IsHeld x.array)
Leaves n before shared (err, x) = ⊥
Leaves n before shared (crash, x) = before ≡ freed

count-zeroed : (n : ℕ) → plane_count (zeroed n) ≡ n
unfolding zeroed
count-zeroed zero = refl
count-zeroed (suc n) = ap suc (count-zeroed n)

-- The loop keeps the number of buffers, and has registered them all if it meets no error.
abbrev Mapped : ℕ → Option SetupError × List VideoSlot × List SystemCall → Type 0
Mapped n (e, cs, log) = (plane_count cs ≡ n) × (e ≡ none → all_registered cs ≡ true)

Mapped-option :
    {A : Type 0} {n : ℕ} (o : Option A)
    (other : Option SetupError × List VideoSlot × List SystemCall)
    (k : A → Option SetupError × List VideoSlot × List SystemCall)
    → Mapped n other
    → ((a : A) → Mapped n (k a))
    → Mapped n (elim o [ none ↦ other | some a ↦ k a ])
Mapped-option none other k h hk = h
Mapped-option (some a) other k h hk = hk a

Mapped-if :
    {n : ℕ} (test : Bool) (first other : Option SetupError × List VideoSlot × List SystemCall)
    → Mapped n first
    → Mapped n other
    → Mapped n (if test then first else other)
Mapped-if true first other h k = h
Mapped-if false first other h k = k

map_bufs-Mapped :
    (env : System) (i : ℕ) (bs : List VideoSlot) (log : List SystemCall)
    → Mapped (plane_count bs) (map_bufs env i bs log)
unfolding map_bufs all_registered
map_bufs-Mapped env i [] log = (refl, λ h. refl)
map_bufs-Mapped env i (b ∷ bs) log =
    Mapped-option (env.query log i) _ _ (refl, λ h. absurd (cc h))
      (λ extent.
        let (mapped, c, log') = map_planes env extent env.planes 0 b (query_buffer i ∷ log) in
        let (size, registered) = map_bufs-Mapped env (i + 1) bs log' in
        Mapped-if mapped _ _ (ap suc size, registered) (refl, λ h. absurd (cc h)))

pub leave-gone :
    (env : System) (e : SetupError) (n : ℕ) (shared : Bool) (x : Context)
    → Leaves n x.array shared (leave env e x)
unfolding leave
leave-gone env e n shared x = go x.array
  where
    go : (a : Array) → Leaves n a shared (leave env e (record x { array = a }))
    go no_array = λ h. h
    go freed = refl
    go (held bs) = λ h. h

map_all-Leaves :
    (env : System) (n : ℕ) (before : Array) (shared : Bool) (bs : List VideoSlot) (x : Context)
    → plane_count bs ≡ n
    → x.count ≡ n
    → Leaves n before shared (map_all env bs x)
unfolding map_all leave
map_all-Leaves env n before shared bs x size count =
    go (map_bufs env 0 bs x.log).0 (map_bufs-Mapped env 0 bs x.log).1
  where
    cs : List VideoSlot
    cs = (map_bufs env 0 bs x.log).1

    after : Context
    after = record x { array = held cs; log = (map_bufs env 0 bs x.log).2 }

    go :
        (e : Option SetupError)
        → (e ≡ none → all_registered cs ≡ true)
        → Leaves n before shared (elim e [ none ↦ (ok none, after) | some c ↦ leave env c after ])
    go none registered =
        (cs, refl, (map_bufs-Mapped env 0 bs x.log).0 ∙ size, count, λ h. registered refl)
    go (some c) registered = λ h. h

-- An array whose size does not wrap has as many elements as are counted.
pub fill-Leaves :
    (env : System) (n : ℕ) (x : Context)
    → slot_size * n < 2 ^ 32
    → Leaves n x.array x.shared (fill env n x)
unfolding fill leave ◌>>=◌
fill-Leaves env n x fits = memory (env.has_memory x.log size)
  where
    size : ℕ
    size = u32 (slot_size * n)

    slots : List VideoSlot
    slots = zeroed (size / slot_size)

    slots-count : plane_count slots ≡ n
    slots-count = count-zeroed (size / slot_size) ∙ omega arith

    asked : Context
    asked = record x { array = held slots; count = n; log = allocate size ∷ x.log }

    filled : (b : Bool) → Leaves n x.array b ((if b then pure none else map_all env slots) asked)
    filled true = (slots, refl, slots-count, refl, λ h. absurd (cc h))
    filled false = map_all-Leaves env n x.array false slots asked slots-count refl

    unwrapped :
        (b : Bool)
        → leb (2 ^ 32) (slot_size * n) ≡ b
        → Leaves n x.array x.shared (
            if b then (crash, asked) else (if x.shared then pure none else map_all env slots) asked)
    unwrapped true h = absurd (omega (arith, leb→le (2 ^ 32) (slot_size * n) h))
    unwrapped false h = filled x.shared

    memory :
        (b : Bool)
        → Leaves n x.array x.shared (
            if not b
            then (ok (some no_mem), record asked { array = no_array })
            else if leb (2 ^ 32) (slot_size * n)
            then (crash, asked)
            else (if x.shared then pure none else map_all env slots) asked)
    memory true = unwrapped (leb (2 ^ 32) (slot_size * n)) refl
    memory false = λ h. h

pub Leaves-if :
    (n : ℕ) (a : Array) (shared : Bool) (test : Bool) (first other : Step (Option SetupError))
    (x : Context)
    → Leaves n a shared (first x)
    → Leaves n a shared (other x)
    → Leaves n a shared ((if test then first else other) x)
Leaves-if n a shared true first other x h k = h
Leaves-if n a shared false first other x h k = k

-- Whatever the driver and the system answer, setting up `n` buffers, whose 88 bytes each are less than 2 ^ 32 bytes in
-- all, without an error leaves an array of `n` buffers, all of them registered unless the memory is the client's, and
-- the count `n`. With an error no array is left: the pointer is NULL or stale. A stale pointer is read only where the
-- context had one before.
pub setup-Leaves :
    (env : System) (n : ℕ) (x : Context)
    → slot_size * n < 2 ^ 32
    → Leaves n x.array x.shared (setup env n x)
unfolding setup ◌>>=◌
setup-Leaves env n x fits =
    Leaves-if n x.array x.shared (n == 0) _ _ x (leave-gone env bad_param n x.shared x)
      (given (env.request x.log n x.shared))
  where
    asked : Context
    asked = record x { log = request_buffers n x.shared ∷ x.log }

    proceed : Option ℕ → Step (Option SetupError)
    proceed none = leave env api_fail
    proceed (some k) = if not (k == n) then leave env no_mem else fill env n

    given : (got : Option ℕ) → Leaves n x.array x.shared (proceed got asked)
    given none = leave-gone env api_fail n x.shared asked
    given (some k) =
        Leaves-if n x.array x.shared (not (k == n)) _ _ asked
          (leave-gone env no_mem n x.shared asked) (fill-Leaves env n asked fits)
