-- ===== src/Scaler/Ring/Frames.antt =====
-- The output path never queues a buffer that the driver holds.
use exynos.Common.{ℕ, suc, ◌%◌, ◌≤◌, ◌<◌, ◌≡◌, arith, true, some, List, [], ◌∷◌}
use exynos.Common.Act.Good.{Good, Good-bind}
use exynos.Scaler.Format.{Sizes, gsc_get_plane_size}
use exynos.Scaler.Driver.{Request, Event, Env}
use exynos.Scaler.Handle.{Image, Entity, Session}
use exynos.Scaler.Out.{planes_of}
use exynos.Scaler.Ring.{Frame, show_frames, AfterFrames}
use exynos.Scaler.Ring.Round.{Between, run-Good, wait-Good}

unfoldable pub count_of : List Frame → ℕ → ℕ
count_of [] n = n
count_of (f ∷ fs) n = count_of fs (suc n)

count_of-le : (fs : List Frame) (n : ℕ) → n ≤ count_of fs n
unfolding count_of
count_of-le [] n = omega arith
count_of-le (f ∷ fs) n = omega (arith, count_of-le fs (suc n))

-- If the driver answers every request, the source format is known and has three planes at most, and the video
-- device is there, then from the state after `n` frames the client shows further frames without a failure, as
-- long as the frames are fewer than 2 ^ 31 in all, where the counter overflows.
-- It is then in the state after all of them: the driver holds the last two frames, the next index is the count
-- modulo 3, and in the whole log no buffer has been queued while the driver held it.
pub show_frames-AfterFrames :
    (env : Env) (answers : List Event → Request → ℕ) (e : Entity) (img : Image) (z : Sizes)
    → ((log : List Event) (r : Request) → env.answer log r ≡ some (answers log r))
    → planes_of env (env.v4l2_pix img.format) ≤ 3
    → gsc_get_plane_size env.align img.fw img.fh (env.v4l2_pix img.format) ≡ some z
    → (fs : List Frame) (n : ℕ) (s : Session) → count_of fs n < 2147483648
    → AfterFrames e img n s
    → Good (λ _. AfterFrames e img (count_of fs n)) (show_frames env fs s)
unfolding show_frames count_of
show_frames-AfterFrames env answers e img z replies few supported [] n s small p = p
show_frames-AfterFrames env answers e img z replies few supported (f ∷ fs) n s small p =
    let now : suc n < 2147483648 = omega (arith, small, count_of-le fs (suc n)) in
    Good-bind (λ _ t. Between env answers replies e img n (suc n % 3) (suc n) true t) _ _ _ s
      (run-Good env answers replies e img n f.y f.u f.v z s now few supported p)
      (λ a t q.
        Good-bind (λ _. AfterFrames e img (suc n)) _ _ _ t
          (wait-Good env answers replies e img n t now q)
          (λ b u r.
            show_frames-AfterFrames env answers e img z replies few supported fs (suc n) u small r))
