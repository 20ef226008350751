-- ===== src/Encoder/Setup.antt =====
-- MFC_Encoder_Setup_Inbuf and _Outbuf, Find, Get_Buffer and a port's part of MFC_Encoder_Finalize in
-- ExynosVideoEncoder.c. The set-ups differ from the decoder's in that they take the
-- number of buffers that the driver has set. At both ports the loops at EXIT go on after a plane with MAP_FAILED.
use exynos.Common.{
  ◌*◌, ◌^◌, ◌<◌, ℕ, ◌≡◌, refl, Bool, true, false, Option, none, some, List, ◌==◌, ◌∷◌,
  if◌then◌else◌,
}
use exynos.Common.Act.{gets, modify, ◌>>=◌, ◌>>◌, Result, ok, err, crash}
use exynos.Decoder.Driver.{Buffer}
use exynos.Decoder.Settings.{set_shareable}
use exynos.Decoder.Buffers.{find_from}
use exynos.Decoder.Setup.{
  get_buffer, finalize_port, Array, no_array, Context, SetupError, Step, System, api_fail,
  bad_param, slot_size, fill, freed, held, leave, request_buffers,
}
use exynos.Decoder.Arrays.{IsHeld, Leaves, fill-Leaves, leave-gone}

-- The search, Get_Buffer and Finalize are as in the decoder.
unfoldable pub find_buffer : ℕ → ℕ → List Buffer → Option ℕ
find_buffer = find_from

unfoldable pub get_encoder_buffer : ℕ → Context → Option ℕ
get_encoder_buffer = get_buffer

unfoldable pub finalize_encoder_port : System → Step (Unit {0})
finalize_encoder_port = finalize_port

unfoldable pub set_encoder_shareable : Context → Context
set_encoder_shareable = set_shareable

abbrev pub encoder_port : System → System
encoder_port env = record env { is_input = false }

-- `none` is VIDEO_ERROR_NONE.
unfoldable pub setup_port : System → ℕ → Step (Option SetupError)
setup_port env n = do
  x ← gets (λ x. x)
  if n == 0 then leave (encoder_port env) bad_param else do
    modify (λ y. record y { log = request_buffers n y.shared ∷ y.log })
    elim (env.request x.log n x.shared) [
      | none ↦ leave (encoder_port env) api_fail
      | some got ↦ fill (encoder_port env) got
    ]

-- What a set-up leaves if the driver answers with `got`, which is `none` if it was not asked or refuses.
abbrev pub LeavesFor : Option ℕ → Array → Bool → Result (Option SetupError) × Context → Type 0
LeavesFor (some got) before shared out = Leaves got before shared out
LeavesFor none before shared (ok none, x) = ⊥
LeavesFor none before shared (ok (some e), x) = ¬ (IsHeld x.array)
LeavesFor none before shared (err, x) = ⊥
LeavesFor none before shared (crash, x) = before ≡ freed

gone :
    (x : Context) (shared : Bool) (n : ℕ) (before : Array)
    (out : Result (Option SetupError) × Context)
    → Leaves n before shared out
    → ¬ (out.0 ≡ ok none)
    → LeavesFor none before shared out
gone x shared n before (ok none, y) h other = absurd (other refl)
gone x shared n before (ok (some e), y) h other = h
gone x shared n before (err, y) h other = h
gone x shared n before (crash, y) h other = h

left-fails : (env : System) (e : SetupError) (x : Context) → ¬ ((leave env e x).0 ≡ ok none)
unfolding leave
left-fails env e x = go x.array
  where
    go : (a : Array) → ¬ ((leave env e (record x { array = a })).0 ≡ ok none)
    go no_array = λ h. cc h
    go freed = λ h. cc h
    go (held bs) = λ h. cc h

left-Leaves :
    (env : System) (e : SetupError) (x : Context) → LeavesFor none x.array x.shared (leave env e x)
left-Leaves env e x =
    gone x x.shared 0 x.array (leave env e x) (leave-gone env e 0 x.shared x) (left-fails env e x)

-- If 88 bytes for each buffer that the driver sets are less than 2 ^ 32 bytes in all, then whatever else the driver and
-- the system answer, setting up a port of the encoder without an error leaves an array of as many
-- buffers as the driver has set, whether or not they are the `n` that were asked for, and that count; all of them are
-- registered unless the memory is the client's. With an error no array is left: the pointer is NULL or stale. A
-- stale pointer is read only where the context had one before.
pub setup_port-Leaves :
    (env : System) (n : ℕ) (x : Context)
    → ((got : ℕ) → env.request x.log n x.shared ≡ some got → slot_size * got < 2 ^ 32)
    → LeavesFor
        (if n == 0 then none else env.request x.log n x.shared)
        x.array
        x.shared
        (setup_port env n x)
unfolding setup_port ◌>>=◌
setup_port-Leaves env n x few = by_count (n == 0)
  where
    port : System
    port = encoder_port env

    asked : Context
    asked = record x { log = request_buffers n x.shared ∷ x.log }

    proceed : Option ℕ → Step (Option SetupError)
    proceed none = leave port api_fail
    proceed (some got) = fill port got

    given :
        (got : Option ℕ)
        → env.request x.log n x.shared ≡ got
        → LeavesFor got x.array x.shared (proceed got asked)
    given none e = left-Leaves port api_fail asked
    given (some got) e = fill-Leaves port got asked (few got e)

    by_count :
        (b : Bool)
        → LeavesFor (if b then none else env.request x.log n x.shared) x.array x.shared (
            (if b
                then leave port bad_param
                else ((λ y.
                    proceed
                      (env.request x.log n x.shared)
                      (record y { log = request_buffers n y.shared ∷ y.log }))))
              x)
    by_count true = left-Leaves port bad_param x
    by_count false = given (env.request x.log n x.shared) refl
