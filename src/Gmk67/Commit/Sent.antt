-- ===== src/Gmk67/Commit/Sent.antt =====
-- src/hal/legacy/gmk67.rs: `commit_to_nvram`, the frames that it sends.
use clackd.Base.{
  ℕ, ◌≡◌, ◌≢◌, refl, sym, ap, ◌∙◌, List, [], ◌∷◌, ◌++◌, append_assoc, append-nil, true, false, none,
  some, arith, Option-cases, List-cases, inl, inr,
}
use clackd.Error.{DriverError, Result, ok, err, Result-cases, ◌>>=◌, ◌>>◌}
use clackd.Shadow.{ShadowState, is_dirty, dirty_layers, layer_entries, prepare_commit, rollback}
use clackd.Shadow.Store.{Disk}
use clackd.Gmk67.Matrix.{keydef_command}
use clackd.Gmk67.Driver.{Gmk67Io, Gmk67Driver, indexed, push_layer, push_dirty_layers}
use clackd.Gmk67.Methods.{commit_to_nvram}
use clackd.Gmk67.Wire.{keymap_frames, recorded, Transacts, commit_keymap-Transacts}
use clackd.Gmk67.Commit.{Commits, push_layer-rest, commit-Commits}

-- The frames of a layer; none where it has no area or no key.
abbrev pub layer_frames : ShadowState → ℕ → List (List ℕ)
layer_frames s layer = elim (keydef_command layer) [
  | none ↦ []
  | some command ↦ elim (indexed (layer_entries s layer)) [
    | [] ↦ []
    | e ∷ es ↦ keymap_frames command (e ∷ es)
  ]
]

abbrev pub layers_frames : ShadowState → List ℕ → List (List ℕ)
layers_frames s [] = []
layers_frames s (l ∷ ls) = layer_frames s l ++ layers_frames s ls

module _ (bus : Gmk67Io) (disk : Disk) where
  abbrev Board : Type 0
  Board = Gmk67Driver (recorded bus) disk

  -- The frames that are sent come behind those sent before.
  abbrev pub Extends : List (List ℕ) → List (List ℕ) → Type 0
  Extends before after = (more : List (List ℕ)) × (after ≡ before ++ more)

  Extends-trans : (a b c : List (List ℕ)) → Extends a b → Extends b c → Extends a c
  Extends-trans a b c (m, h) (n, k) = (m ++ n, k ∙ ap (λ x. x ++ n) h ∙ append_assoc a m n)

  Transacts-Extends :
      (fs before : List (List ℕ)) (x : Result (Unit {0}) × Board)
      → Transacts bus disk fs before x
      → Extends before x.1.world.1
  Transacts-Extends fs before (ok u, s) h = (fs, h)
  Transacts-Extends fs before (err e, s) (n, l, h) = (_, h)

  push_layer-Extends :
      (l : ℕ) (s : Board) → Extends s.world.1 (push_layer (recorded bus) disk l s).1.world.1
  unfolding push_layer
  push_layer-Extends l s = elim (Option-cases (keydef_command l)) [
    | inl e ↦ rw (e, push_layer) ([], sym (append-nil s.world.1))
    | inr (command, e) ↦ elim (List-cases (indexed (layer_entries s.shadow l))) [
      | inl k ↦ rw (e, k, push_layer) ([], sym (append-nil s.world.1))
      | inr (x, xs, k) ↦
          rw (e, k, push_layer)
            (Transacts-Extends (keymap_frames command (x ∷ xs)) s.world.1 _
              (commit_keymap-Transacts bus disk command (x ∷ xs) s))
    ]
  ]

  ok-Transacts :
      (fs before : List (List ℕ)) (x : Result (Unit {0}) × Board)
      → Transacts bus disk fs before x
      → x.0 ≡ ok tt
      → x.1.world.1 ≡ before ++ fs
  ok-Transacts fs before (ok u, s) h e = h
  ok-Transacts fs before (err y, s) h e = cc

  push_layer-frames :
      (l : ℕ) (s : Board)
      → (push_layer (recorded bus) disk l s).0 ≡ ok tt
      → (push_layer (recorded bus) disk l s).1.world.1 ≡ s.world.1 ++ layer_frames s.shadow l
  unfolding push_layer
  push_layer-frames l s h = elim (Option-cases (keydef_command l)) [
    | inl e ↦ rw (e, push_layer, layer_frames) (sym (append-nil s.world.1))
    | inr (command, e) ↦ elim (List-cases (indexed (layer_entries s.shadow l))) [
      | inl k ↦ rw (e, k, push_layer, layer_frames) (sym (append-nil s.world.1))
      | inr (x, xs, k) ↦
          rw (e, k, push_layer, layer_frames)
            (ok-Transacts (keymap_frames command (x ∷ xs)) s.world.1 _
              (commit_keymap-Transacts bus disk command (x ∷ xs) s) (rw (e, k, push_layer) at h))
    ]
  ]

  wrong : (x : DriverError) → ◌≢◌ {A = Result (Unit {0})} (err x) (ok tt)
  wrong x e = cc

  push_dirty_layers-frames :
      (ls : List ℕ) (s : Board)
      → (push_dirty_layers (recorded bus) disk ls s).0 ≡ ok tt
      → (push_dirty_layers (recorded bus) disk ls s).1.world.1
        ≡ s.world.1 ++ layers_frames s.shadow ls
  unfolding push_dirty_layers
  push_dirty_layers-frames [] s h = sym (append-nil s.world.1)
  push_dirty_layers-frames (l ∷ ls) s h =
      let t = (push_layer (recorded bus) disk l s).1 in
      let kept : t.shadow ≡ s.shadow =
        ap (λ t. t.shadow) (push_layer-rest (recorded bus) disk l s) in
      elim (Result-cases (push_layer (recorded bus) disk l s).0) [
        | inl (u, e) ↦
            let later =
              push_dirty_layers-frames ls t (rw (e, push_dirty_layers, ◌>>◌, ◌>>=◌) at h) in
            rw (e, push_dirty_layers, ◌>>◌, ◌>>=◌)
              (later
                ∙ ap (λ x. x ++ layers_frames t.shadow ls) (push_layer-frames l s e)
                ∙ append_assoc s.world.1 (layer_frames s.shadow l) (layers_frames t.shadow ls)
                ∙ ap (λ x. s.world.1 ++ (layer_frames s.shadow l ++ layers_frames x ls)) kept)
        | inr (x, e) ↦ absurd (wrong x (rw (e, push_dirty_layers, ◌>>◌, ◌>>=◌) at h))
      ]

  push_dirty_layers-Extends :
      (ls : List ℕ) (s : Board)
      → Extends s.world.1 (push_dirty_layers (recorded bus) disk ls s).1.world.1
  unfolding push_dirty_layers
  push_dirty_layers-Extends [] s = ([], sym (append-nil s.world.1))
  push_dirty_layers-Extends (l ∷ ls) s =
      let t = (push_layer (recorded bus) disk l s).1 in
      elim (Result-cases (push_layer (recorded bus) disk l s).0) [
        | inl (u, e) ↦
            rw (e, push_dirty_layers, ◌>>◌, ◌>>=◌)
              (Extends-trans s.world.1 t.world.1 _ (push_layer-Extends l s)
                (push_dirty_layers-Extends ls t))
        | inr (x, e) ↦ rw (e, push_dirty_layers, ◌>>◌, ◌>>=◌) (push_layer-Extends l s)
      ]

  layer_frames-prepare :
      (s : ShadowState) (l : ℕ) → layer_frames (prepare_commit s) l ≡ layer_frames s l
  unfolding prepare_commit layer_entries
  layer_frames-prepare s l = refl

  layers_frames-prepare :
      (s : ShadowState) (ls : List ℕ) → layers_frames (prepare_commit s) ls ≡ layers_frames s ls
  unfolding prepare_commit layer_entries
  layers_frames-prepare s [] = refl
  layers_frames-prepare s (l ∷ ls) = ap (λ x. layer_frames s l ++ x) (layers_frames-prepare s ls)

  dirty_layers-prepare : (s : ShadowState) → dirty_layers (prepare_commit s) ≡ dirty_layers s
  unfolding prepare_commit dirty_layers
  dirty_layers-prepare s = refl

  -- A commit that succeeds has sent, for each layer with pending edits and in the order of the layers,
  -- the whole transaction with the layer's keymap, and nothing else.
  pub commit_to_nvram-frames :
      (s : Board)
      → is_dirty s.shadow ≡ true
      → (commit_to_nvram (recorded bus) disk s).0 ≡ ok tt
      → (commit_to_nvram (recorded bus) disk s).1.world.1
        ≡ s.world.1 ++ layers_frames s.shadow (dirty_layers s.shadow)
  unfolding commit_to_nvram
  commit_to_nvram-frames s d h =
      let prepared : Board = record s { shadow = prepare_commit s.shadow } in
      let ls = dirty_layers (prepare_commit s.shadow) in
      elim (Result-cases (push_dirty_layers (recorded bus) disk ls prepared).0) [
        | inl (u, e) ↦
            rw (d, e, commit_to_nvram)
              (push_dirty_layers-frames ls prepared e
                ∙ ap (λ x. s.world.1 ++ x)
                    (layers_frames-prepare s.shadow ls
                      ∙ ap (layers_frames s.shadow) (dirty_layers-prepare s.shadow)))
        | inr (x, e) ↦ absurd (wrong x (rw (d, e, commit_to_nvram) at h))
      ]

  commit_to_nvram-world :
      (s : Board)
      → is_dirty s.shadow ≡ true
      → (commit_to_nvram (recorded bus) disk s).1.world
        ≡ (push_dirty_layers
            (recorded bus)
            disk
            (dirty_layers (prepare_commit s.shadow))
            (record s { shadow = prepare_commit s.shadow })).1.world
  unfolding commit_to_nvram
  commit_to_nvram-world s d = ground arith

  err-Commits :
      (s : Board) (y : Result (Unit {0}) × Board) (x : DriverError)
      → Commits (recorded bus) disk s y
      → y.0 ≡ err x
      → y.1.shadow ≡ rollback s.shadow
  err-Commits s (ok u, t) x h e = cc
  err-Commits s (err y, t) x h e = h.0

  first-Extends :
      (l : ℕ) (ls : List ℕ) (s : Board)
      → let prepared : Board = record s { shadow = prepare_commit s.shadow } in
        (push_layer (recorded bus) disk l prepared).0 ≡ ok tt
        → Extends
            (s.world.1 ++ layer_frames s.shadow l)
            (push_dirty_layers (recorded bus) disk (l ∷ ls) prepared).1.world.1
  unfolding push_dirty_layers
  first-Extends l ls s h =
      let prepared : Board = record s { shadow = prepare_commit s.shadow } in
      let t = (push_layer (recorded bus) disk l prepared).1 in
      let sent : t.world.1 ≡ s.world.1 ++ layer_frames s.shadow l =
        push_layer-frames l prepared h
        ∙ ap (λ x. s.world.1 ++ x) (layer_frames-prepare s.shadow l) in
      rw (h, push_dirty_layers, ◌>>◌, ◌>>=◌) (rw sent at (push_dirty_layers-Extends ls t))

  -- When the first of the dirty layers is taken and a later one fails, the board has the whole
  -- transaction of the first, while the shadow reads the committed keymap and has nothing to commit.
  pub commit-partial :
      (s : Board) (l : ℕ) (ls : List ℕ) (x : DriverError)
      → is_dirty s.shadow ≡ true
      → dirty_layers s.shadow ≡ l ∷ ls
      → (push_layer (recorded bus) disk l (record s { shadow = prepare_commit s.shadow })).0 ≡ ok tt
      → (commit_to_nvram (recorded bus) disk s).0 ≡ err x
      → let s' = (commit_to_nvram (recorded bus) disk s).1 in
        Extends (s.world.1 ++ layer_frames s.shadow l) s'.world.1
        × (s'.shadow.keymap ≡ s.shadow.confirmed)
        × (is_dirty s'.shadow ≡ false)
  unfolding rollback is_dirty
  commit-partial s l ls x d e h k =
      let prepared : Board = record s { shadow = prepare_commit s.shadow } in
      let back =
        err-Commits s (commit_to_nvram (recorded bus) disk s) x
          (commit-Commits (recorded bus) disk s d).0 k in
      (
        rw (commit_to_nvram-world s d, dirty_layers-prepare s.shadow, e) (first-Extends l ls s h),
        ap (λ t. t.keymap) back,
        ap is_dirty back,
      )
