-- ===== src/Decoder/Setup.antt =====
-- MFC_Decoder_Setup_Inbuf and _Outbuf, Get_Buffer and the part of MFC_Decoder_Finalize that a port has, in
-- ExynosVideoDecoder.c: how the array of buffers comes and goes. The functions for the input and for the output differ
-- in the number of planes, and in one `break`, which `is_input` tells apart. A size in
-- bytes is a 32-bit size_t. Where it wraps, the array is shorter than is counted, which is `crash` from there on, whether
-- or not the function itself goes past the end: an array that the model goes on with has as many elements as are counted,
-- fewer than 2 ^ 31, so that the cast to int keeps the count.
use exynos.Common.{
  ℕ, zero, suc, ◌*◌, ◌/◌, ◌^◌, u32, ◌+◌, Bool, true, false, not, ◌&&◌, ◌||◌, Option, none, some,
  List, [], ◌∷◌, ◌==◌, leb, if◌then◌else◌,
}
use exynos.Common.Act.{ok, Act, pure, gets, modify, ◌>>=◌, ◌>>◌, crash}
use exynos.Decoder.Driver.{Plane}

-- The fields of `ExynosVideoBuffer` that the set-up writes.
pub record VideoSlot : Type 0 where
  pub plane0 : Plane
  pub plane1 : Plane
  pub queued : Bool
  pub registered : Bool
  pub interlaced : Bool

-- The values of `ExynosVideoErrorType` that are returned.
pub data SetupError : Type 0 where
  bad_param api_fail no_mem map_fail : SetupError

-- The pointer `pInbuf` or `pOutbuf`: NULL, an array, or an array that has been freed.
pub data Array : Type 0 where
  no_array freed : Array
  held : List VideoSlot → Array

-- What is asked of the system; `request_buffers` says whether the memory is the client's.
pub data SystemCall : Type 0 where
  request_buffers : ℕ → Bool → SystemCall
  query_buffer : ℕ → SystemCall
  map_memory unmap_memory : ℕ → ℕ → SystemCall
  allocate : ℕ → SystemCall
  free_array : SystemCall

-- Length and offset of a plane, as the driver tells them.
pub record Extent : Type 0 where
  pub length : ℕ
  pub offset : ℕ

-- The driver and the system, which know what was asked before; MAP_FAILED; and of the port, whether it is the input, and
-- its number of planes. The driver's answer to `reqbufs` is the count it has set.
pub record System : Type 0 where
  pub request : List SystemCall → ℕ → Bool → Option ℕ
  pub query : List SystemCall → ℕ → Option (ℕ → Extent)
  pub map_to : List SystemCall → Extent → ℕ
  pub has_memory : List SystemCall → ℕ → Bool
  pub map_failed : ℕ
  pub is_input : Bool
  pub planes : ℕ

pub record Context : Type 0 where
  pub array : Array
  pub count : ℕ
  pub shared : Bool
  pub log : List SystemCall

abbrev pub Step : Type 0 → Type 0
Step A = Act Context A

abbrev no_plane : Plane
no_plane = record { addr = 0; alloc_size = 0; data_size = 0; fd = 0 }

abbrev cleared : VideoSlot
cleared = record {
  plane0 = no_plane;
  plane1 = no_plane;
  queued = false;
  registered = false;
  interlaced = false;
}

-- The array after `memset`.
unfoldable pub zeroed : ℕ → List VideoSlot
zeroed zero = []
zeroed (suc n) = cleared ∷ zeroed n

abbrev slot_plane : ℕ → VideoSlot → Plane
slot_plane zero b = b.plane0
slot_plane (suc j) b = b.plane1

abbrev set_plane : ℕ → (Plane → Plane) → VideoSlot → VideoSlot
set_plane zero f b = record b { plane0 = f b.plane0 }
set_plane (suc j) f b = record b { plane1 = f b.plane1 }

-- The planes of a buffer from `j` on, `left` of them. `false` if one cannot be mapped, whose address is then MAP_FAILED.
unfoldable pub map_planes :
    System → (ℕ → Extent) → ℕ → ℕ → VideoSlot → List SystemCall → Bool × VideoSlot × List SystemCall
map_planes env extent zero j b log = (true, b, log)
map_planes env extent (suc left) j b log =
    let e = extent j in
    let a = env.map_to log e in
    let asked = map_memory a e.length ∷ log in
    let mapped = set_plane j (λ p. record p { addr = a; alloc_size = e.length; data_size = 0 }) b in
    let rest = map_planes env extent left (j + 1) mapped asked in
    if a == env.map_failed then (false, set_plane j (λ p. record p { addr = a }) b, asked) else rest

abbrev registered_slot : VideoSlot → VideoSlot
registered_slot b = record b { queued = false; registered = true; interlaced = false }

-- The buffers from the index `i` on, with the first error.
unfoldable pub map_bufs :
    System
    → ℕ
    → List VideoSlot
    → List SystemCall
    → Option SetupError × List VideoSlot × List SystemCall
map_bufs env i [] log = (none, [], log)
map_bufs env i (b ∷ bs) log = elim (env.query log i) [
  | none ↦ (some api_fail, b ∷ bs, query_buffer i ∷ log)
  | some extent ↦
      let (mapped, c, log') = map_planes env extent env.planes 0 b (query_buffer i ∷ log) in
      let (e, cs, log'') = map_bufs env (i + 1) bs log' in
      if mapped then (e, registered_slot c ∷ cs, log'') else (some map_fail, c ∷ bs, log')
]

-- Whether a plane with MAP_FAILED was met, which ends the loop over the planes.
unfoldable pub unmap_planes : System → ℕ → ℕ → VideoSlot → List SystemCall → Bool × List SystemCall
unmap_planes env zero j b log = (false, log)
unmap_planes env (suc left) j b log =
    let p = slot_plane j b in
    let rest = unmap_planes env left (j + 1) b (unmap_memory p.addr p.alloc_size ∷ log) in
    if p.addr == env.map_failed then (true, log) else rest

-- At the input that also ends the loop over the buffers.
unfoldable pub unmap_bufs : System → List VideoSlot → List SystemCall → List SystemCall
unmap_bufs env [] log = log
unmap_bufs env (b ∷ bs) log =
    let (failed, log') = unmap_planes env env.planes 0 b log in
    let rest = unmap_bufs env bs log' in if failed && env.is_input then log' else rest

abbrev log_call : SystemCall → Step (Unit {0})
log_call c = modify (λ x. record x { log = c ∷ x.log })

-- The way out at EXIT, where the array is freed and the pointer to it left as it is: a pointer that was already stale is
-- read and freed again, which is `crash` here.
unfoldable pub leave : System → SetupError → Step (Option SetupError)
leave env e x = elim x.array [
  | no_array ↦ (ok (some e), x)
  | freed ↦ (crash, x)
  | held bs ↦
      let log' = if x.shared then x.log else unmap_bufs env bs x.log in
      (ok (some e), record x { array = freed; log = free_array ∷ log' })
]

unfoldable pub map_all : System → List VideoSlot → Step (Option SetupError)
map_all env bs x =
    let (e, cs, log') = map_bufs env 0 bs x.log in
    let x' = record x { array = held cs; log = log' } in
    elim e [ none ↦ (ok none, x') | some err ↦ leave env err x' ]

abbrev set_array : Array → ℕ → Step (Unit {0})
set_array a n = modify (λ x. record x { array = a; count = n })

-- The bytes of an `ExynosVideoBuffer` on a 32-bit machine.
abbrev pub slot_size : ℕ
slot_size = 88

-- After the driver has given the buffers.
unfoldable pub fill : System → ℕ → Step (Option SetupError)
fill env n x =
    let size = u32 (slot_size * n) in
    let asked = record x { log = allocate size ∷ x.log } in
    let slots = zeroed (size / slot_size) in
    if not (env.has_memory x.log size)
    then (set_array no_array n >> leave env no_mem) asked
    else if leb (2 ^ 32) (slot_size * n)
    then (crash, record asked { array = held slots; count = n })
    else (set_array (held slots) n >> (if x.shared then pure none else map_all env slots)) asked

-- `none` is VIDEO_ERROR_NONE.
unfoldable pub setup : System → ℕ → Step (Option SetupError)
setup env n = do
  x ← gets (λ x. x)
  if n == 0 then leave env bad_param else do
    log_call (request_buffers n x.shared)
    elim (env.request x.log n x.shared) [
      | none ↦ leave env api_fail
      | some got ↦ (if not (got == n) then leave env no_mem else fill env n)
    ]

-- `MFC_Decoder_Get_Buffer_Inbuf` and `_Outbuf` for an index that is not negative: the element of the array that is
-- pointed to, or NULL. Whether there is an array is not looked at.
unfoldable pub get_buffer : ℕ → Context → Option ℕ
get_buffer i x = if leb x.count i then none else some i

unfoldable pub release_planes : ℕ → ℕ → VideoSlot → List SystemCall → List SystemCall
release_planes zero j b log = log
release_planes (suc left) j b log =
    let p = slot_plane j b in
    let log' = if p.addr == 0 then log else unmap_memory p.addr p.alloc_size ∷ log in
    release_planes left (j + 1) b log'

unfoldable pub release_bufs : System → List VideoSlot → List SystemCall → List SystemCall
release_bufs env [] log = log
release_bufs env (b ∷ bs) log = release_bufs env bs (release_planes env.planes 0 b log)

-- What MFC_Decoder_Finalize does with a port: unmap the buffers that are counted, and free the array.
unfoldable pub finalize_port : System → Step (Unit {0})
finalize_port env x = elim x.array [
  | no_array ↦ (if x.shared || x.count == 0 then (ok tt, x) else (crash, x))
  | freed ↦ (crash, x)
  | held bs ↦
      let log' = if x.shared then x.log else release_bufs env bs x.log in
      (ok tt, record x { array = freed; log = free_array ∷ log' })
]
