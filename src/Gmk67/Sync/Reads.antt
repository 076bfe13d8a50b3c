-- ===== src/Gmk67/Sync/Reads.antt =====
-- src/hal/legacy/gmk67.rs: what the reads of the read-back leave in the driver.
use clackd.Base.{
  ℕ, zero, suc, ◌+◌, ◌*◌, ◌≡◌, refl, ap, ◌∙◌, List, Bool, true, false, Option, none, some,
  Option-cases, inl, inr, if◌then◌else◌, ◌==◌, ◌%◌, get_or,
}
use clackd.Error.{DriverError, Result, ok, err, Result-cases, ◌>>=◌, ◌>>◌}
use clackd.Keymap.{at, Map, insert}
use clackd.Keymap.Sorted.{IsSorted, insert-IsSorted}
use clackd.Shadow.Store.{Disk}
use clackd.Gmk67.{
  key_def_pages, key_def_entry_marker, cmd_communication_end, cmd_turn_on_customization, encode_cmd,
  encode_start_keydef_page,
}
use clackd.Gmk67.Matrix.{keydef_read_command, find_matrix_pos_for_key_index}
use clackd.Gmk67.Driver.{Gmk67Io, Gmk67Driver, send, receive, read_ack, abort_transaction}
use clackd.Gmk67.Methods.{read_entries, read_pages, read_keydef_layer, read_layers}

entry-IsSorted :
    (b : Bool) (o : Option (ℕ × ℕ)) (layer keycode : ℕ) (m : Map ℕ)
    → IsSorted m
    → IsSorted (
        if b
        then elim o [ none ↦ m | some (row, col) ↦ insert m (at layer row col) keycode ]
        else m)
entry-IsSorted false o layer keycode m h = h
entry-IsSorted true none layer keycode m h = h
entry-IsSorted true (some (row, col)) layer keycode m h =
    insert-IsSorted m (at layer row col) keycode h

read_entries-IsSorted :
    (n entry : ℕ) (page : List ℕ) (p layer : ℕ) (m : Map ℕ)
    → IsSorted m
    → IsSorted (read_entries n entry page p layer m)
unfolding read_entries
read_entries-IsSorted zero entry page p layer m h = h
read_entries-IsSorted (suc n) entry page p layer m h =
    read_entries-IsSorted n (suc entry) page p layer _ (
      entry-IsSorted (get_or page (entry * 4) 0 == key_def_entry_marker)
        (find_matrix_pos_for_key_index ((p * 16 + entry) % 256)) layer
        (get_or page (entry * 4 + 2) 0 + get_or page (entry * 4 + 3) 0 * 256) m h)

module _ (bus : Gmk67Io) (disk : Disk) where
  abbrev Driver : Type 0
  Driver = Gmk67Driver bus disk

  -- A call that changes nothing but the board, and whose value has a property.
  abbrev pub Gives : {A : Type 0} → (A → Type 0) → Driver → Result A × Driver → Type 0
  Gives P s (ok a, s') = P a × (s' ≡ record s { world = s'.world })
  Gives P s (err e, s') = s' ≡ record s { world = s'.world }

  abbrev Anything : {A : Type 0} → A → Type 0
  Anything a = Unit {0}

  set_world : bus.World → Driver → Driver
  set_world w u = record u { world = w }

  Gives-later :
      {A : Type 0} (P : A → Type 0) (s t : Driver) (x : Result A × Driver)
      → t ≡ record s { world = t.world }
      → Gives P t x
      → Gives P s x
  unfolding set_world
  Gives-later P s t (ok a, s') h (p, k) = (p, k ∙ ap (set_world s'.world) h)
  Gives-later P s t (err e, s') h k = k ∙ ap (set_world s'.world) h

  bind-Gives :
      {A B : Type 0} (P : A → Type 0) (Q : B → Type 0) (m : Driver → Result A × Driver)
      (k : A → Driver → Result B × Driver) (s : Driver)
      → Gives P s (m s)
      → ((a : A) (t : Driver) → P a → Gives Q t (k a t))
      → Gives Q s ((m >>= k) s)
  bind-Gives {A} {B} P Q m k s h g = go (m s) h
    where
      go :
          (x : Result A × Driver)
          → Gives P s x
          → Gives Q s (elim x.0 [ ok a ↦ k a x.1 | err e ↦ (err e, x.1) ])
      go (ok a, s') (p, e) = Gives-later Q s s' (k a s') e (g a s' p)
      go (err e, s') h = h

  send-Gives : (frame : List ℕ) (s : Driver) → Gives Anything s (send bus disk frame s)
  send-Gives frame s = elim (Result-cases (bus.set_feature frame s.world).0) [
    | inl (u, e) ↦ rw (e, Gives) (tt, refl)
    | inr (x, e) ↦ rw (e, Gives) refl
  ]

  receive-Gives : (s : Driver) → Gives Anything s (receive bus disk s)
  receive-Gives s = elim (Result-cases (bus.get_feature 0 s.world).0) [
    | inl (u, e) ↦ rw (e, Gives) (tt, refl)
    | inr (x, e) ↦ rw (e, Gives) refl
  ]

  read_ack-Gives : (s : Driver) → Gives Anything s (read_ack bus disk s)
  unfolding read_ack
  read_ack-Gives s = (tt, refl)

  -- A frame, its read and what follows.
  paced-Gives :
      {B : Type 0} (Q : B → Type 0) (frame : List ℕ) (k : Driver → Result B × Driver) (s : Driver)
      → ((t : Driver) → Gives Q t (k t))
      → Gives Q s ((send bus disk frame >> (read_ack bus disk >> k)) s)
  paced-Gives Q frame k s g =
      bind-Gives Anything Q (send bus disk frame) (λ _. read_ack bus disk >> k) s
        (send-Gives frame s)
        (λ a t _.
          bind-Gives Anything Q (read_ack bus disk) (λ _. k) t (read_ack-Gives t) (λ b u _. g u))

  read_pages-Gives :
      (n p layer : ℕ) (m : Map ℕ) (s : Driver)
      → IsSorted m
      → Gives (IsSorted {V = ℕ}) s (read_pages bus disk n p layer m s)
  unfolding read_pages
  read_pages-Gives zero p layer m s h = (h, refl)
  read_pages-Gives (suc n) p layer m s h =
      bind-Gives Anything IsSorted (receive bus disk)
        (λ page. read_pages bus disk n (suc p) layer (read_entries 16 0 page p layer m)) s
        (receive-Gives s)
        (λ page t _.
          read_pages-Gives n (suc p) layer (read_entries 16 0 page p layer m) t
            (read_entries-IsSorted 16 0 page p layer m h))

  read_keydef_layer-Gives :
      (command layer : ℕ) (m : Map ℕ) (s : Driver)
      → IsSorted m
      → Gives (IsSorted {V = ℕ}) s (read_keydef_layer bus disk command layer m s)
  unfolding read_keydef_layer
  read_keydef_layer-Gives command layer m s h =
      paced-Gives (IsSorted {V = ℕ}) (encode_cmd cmd_turn_on_customization) _ s (λ t.
        paced-Gives (IsSorted {V = ℕ}) (encode_start_keydef_page command) _ t (λ u.
          bind-Gives (IsSorted {V = ℕ}) IsSorted (read_pages bus disk key_def_pages 0 layer m) _ u
            (read_pages-Gives key_def_pages 0 layer m u h)
            (λ m' v k.
              paced-Gives (IsSorted {V = ℕ}) (encode_cmd cmd_communication_end) (λ w. (ok m', w)) v
                (λ w. (k, refl)))))

  abort-Gives :
      {B : Type 0} (Q : B → Type 0) (s s' : Driver) (e : DriverError)
      → s' ≡ record s { world = s'.world }
      → Gives Q s (err e, abort_transaction bus disk s')
  unfolding abort_transaction set_world
  abort-Gives Q s s' e h =
      ap (set_world (bus.set_feature (encode_cmd cmd_communication_end) s'.world).1) h

  pub read_layers-Gives :
      (n layer : ℕ) (m : Map ℕ) (s : Driver)
      → IsSorted m
      → Gives (IsSorted {V = ℕ}) s (read_layers bus disk n layer m s)
  unfolding read_layers
  read_layers-Gives zero layer m s h = (h, refl)
  read_layers-Gives (suc n) layer m s h = elim (Option-cases (keydef_read_command layer)) [
    | inl e ↦ rw (e, read_layers) (read_layers-Gives n (suc layer) m s h)
    | inr (command, e) ↦
        rw (e, read_layers)
          (after (read_keydef_layer bus disk command layer m s)
            (read_keydef_layer-Gives command layer m s h)
            (λ m' t k. read_layers-Gives n (suc layer) m' t k))
  ]
    where
      after :
          (x : Result (Map ℕ) × Driver)
          → Gives (IsSorted {V = ℕ}) s x
          → ((m' : Map ℕ) (t : Driver)
              → IsSorted m'
              → Gives (IsSorted {V = ℕ}) t (read_layers bus disk n (suc layer) m' t))
          → Gives (IsSorted {V = ℕ}) s (elim x.0 [
            | ok m' ↦ read_layers bus disk n (suc layer) m' x.1
            | err e ↦ (err e, abort_transaction bus disk x.1)
          ])
      after (ok m', t) (k, r) g = Gives-later (IsSorted {V = ℕ}) s t _ r (g m' t k)
      after (err e, t) r g = abort-Gives (IsSorted {V = ℕ}) s t e r
