-- ===== src/Hwc/Noted.antt =====
-- The layers that get_hwc_ui_lay_skipdraw_decision of libhwc/ExynosHWC.cpp notes, and looks up again.
use exynos.Common.{
  ℕ, zero, suc, ◌+◌, ◌≤◌, ◌<◌, ◌≡◌, refl, ap, ◌∙◌, Bool, true, false, Option, none, some, List, [],
  ◌∷◌, leb, ◌==◌, if◌then◌else◌, arith, set, length, length-set, get_elem?-of_lt,
}
use exynos.Hwc.Types.{PrivateHandle, Env, Layer, framebuffer, VirtualWindow, num_of_dummy_win}
use exynos.Hwc.Skip.{
  Mark, layer_of, set_layer, count_same, mark_layers, note_layer, note_layers, is_drawn, address,
}

-- The first `m` windows have a layer among `n`.
abbrev pub Below : ℕ → ℕ → List VirtualWindow → Type 0
Below n zero vs = Unit
Below n (suc m) [] = ⊥
Below n (suc m) (v ∷ vs) = ((i : ℕ) × (v.index ≡ some i) × (i < n)) × Below n m vs

layer_of-some :
    (v : VirtualWindow) (list : List Layer) (i : ℕ)
    → v.index ≡ some i
    → i < length list
    → (cur : Layer) × (layer_of v list ≡ some cur)
layer_of-some v list i e lt = let (cur, h) = get_elem?-of_lt list i lt in (cur, rw e h)

pub count_same-some :
    (m : ℕ) (vs : List VirtualWindow) (list : List Layer)
    → Below (length list) m vs
    → (k : ℕ) × (count_same m vs list ≡ some k)
unfolding count_same
count_same-some zero vs list h = (0, refl)
count_same-some (suc m) [] list h = absurd h
count_same-some (suc m) (v ∷ vs) list h =
    let (cur, e) = layer_of-some v list h.0.0 h.0.1 h.0.2 in
    let (k, e') = count_same-some m vs list h.1 in
    ((if v.prev_buf == address cur then suc k else k), rw (e, e', count_same) refl)

-- A mark that keeps the index of the window.
abbrev pub KeepsIndex : Mark → Type 0
KeepsIndex f = (cur : Layer) (v : VirtualWindow) → (f cur v).0.index ≡ v.index

length-set_layer :
    (v : VirtualWindow) (cur : Layer) (list : List Layer)
    → length (set_layer v cur list) ≡ length list
length-set_layer v cur list = go v.index
  where
    go :
        (o : Option ℕ)
        → length (elim o as (λ _. List Layer) [ none ↦ list | some i ↦ set list i cur ])
          ≡ length list
    go none = refl
    go (some i) = length-set {0} list i cur

-- What `mark_layers` gives.
pub record Marked (n m size : ℕ) (out : Option (List VirtualWindow × List Layer)) : Type 0 where
  pub windows : List VirtualWindow
  pub layers : List Layer
  pub returns : out ≡ some (windows, layers)
  pub below : Below n m windows
  pub count : length windows ≡ size
  pub total : length layers ≡ n

pub mark_layers-Marked :
    (f : Mark) (n m : ℕ) (vs : List VirtualWindow) (list : List Layer)
    → KeepsIndex f
    → length list ≡ n
    → Below n m vs
    → Marked n m (length vs) (mark_layers f m vs list)
unfolding mark_layers
mark_layers-Marked f n zero vs list keep e h = record {
  windows = vs;
  layers = list;
  returns = refl;
  below = tt;
  count = refl;
  total = e;
}
mark_layers-Marked f n (suc m) [] list keep e h = absurd h
mark_layers-Marked f n (suc m) (v ∷ vs) list keep e h =
    let (cur, found) = layer_of-some v list h.0.0 h.0.1 (omega (arith, h.0.2, e)) in
    let (v', cur') = f cur v in
    let rest =
      mark_layers-Marked f n m vs (set_layer v cur' list) keep (length-set_layer v cur' list ∙ e)
        h.1 in
    record {
      windows = v' ∷ rest.windows;
      layers = rest.layers;
      returns = rw (found, rest.returns, mark_layers) refl;
      below = ((h.0.0, keep cur v ∙ h.0.1, h.0.2), rest.below);
      count = ap suc rest.count;
      total = rest.total;
    }

-- A window is noted behind the first `m`.
Below-set :
    (n m i : ℕ) (v : VirtualWindow) (vs : List VirtualWindow)
    → v.index ≡ some i
    → i < n
    → m < length vs
    → Below n m vs
    → Below n (suc m) (set vs m v)
Below-set n m i v [] e lt le h = absurd (omega arith)
Below-set n zero i v (w ∷ vs) e lt le h = ((i, e, lt), tt)
Below-set n (suc m) i v (w ∷ vs) e lt le h = (h.0, Below-set n m i v vs e lt (omega arith) h.1)

-- What noting leaves of `n` layers.
pub record Noted (n m : ℕ) (vs : List VirtualWindow) : Type 0 where
  pub below : Below n m vs
  pub count : length vs ≡ num_of_dummy_win

note_layer-Noted :
    (env : Env) (n i m : ℕ) (cur : Layer) (vs : List VirtualWindow)
    → i < n
    → m < num_of_dummy_win
    → Noted n m vs
    → let out = note_layer env i m cur vs in Noted n out.0 out.1
unfolding note_layer
note_layer-Noted env n i m cur vs lt le h = go (is_drawn env cur) cur.handle
  where
    drawn : Layer
    drawn = record cur { composition = framebuffer }

    v : VirtualWindow
    v = record { prev_buf = address cur; index = some i; reserved = false }

    kept : Option PrivateHandle → ℕ × List VirtualWindow × Layer
    kept o = elim o as (λ _. ℕ × List VirtualWindow × Layer) [
      | none ↦ (m, vs, drawn)
      | some _ ↦ (m, vs, cur)
    ]

    go :
        (b : Bool) (o : Option PrivateHandle)
        → let out = if b then (suc m, set vs m v, drawn) else kept o in Noted n out.0 out.1
    go true o = record {
      below = Below-set n m i v vs refl lt (omega (arith, h.count)) h.below;
      count = length-set {0} vs m v ∙ h.count;
    }
    go false none = h
    go false (some handle) = h

pub record NotedAll (n size : ℕ) (out : ℕ × List VirtualWindow × List Layer) : Type 0 where
  pub noted : Noted n out.0 out.1
  pub total : length out.2 ≡ size

NotedAll-if :
    (n size : ℕ) (test : Bool) (first other : ℕ × List VirtualWindow × List Layer)
    → (test ≡ true → NotedAll n size first)
    → (test ≡ false → NotedAll n size other)
    → NotedAll n size (if test then first else other)
NotedAll-if n size true first other h k = h refl
NotedAll-if n size false first other h k = k refl

pub note_layers-NotedAll :
    (env : Env) (n i m : ℕ) (list : List Layer) (vs : List VirtualWindow)
    → i + length list ≤ n
    → Noted n m vs
    → NotedAll n (length list) (note_layers env i m list vs)
unfolding note_layers
note_layers-NotedAll env n i m [] vs le h = record { noted = h; total = refl }
note_layers-NotedAll env n i m (cur ∷ list) vs le h =
    let (m', vs', cur') = note_layer env i m cur vs in
    NotedAll-if n (suc (length list)) (leb num_of_dummy_win m) _ _
      (λ full. record { noted = h; total = refl })
      (λ more.
        let rest =
          note_layers-NotedAll env n (i + 1) m' list vs' (omega (arith, le))
            (note_layer-Noted env n i m cur vs (omega (arith, le)) (ground (arith, more)) h) in
        record { noted = rest.noted; total = ap suc rest.total })
