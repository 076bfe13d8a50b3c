-- ===== src/Via/Coalescer/Flush.antt =====
-- src/hal/via.rs: `flush_buffer` moves the pending writes to the device, and what a read sees stays
-- the same at every point of it.
use clackd.Base.{
  ℕ, ◌≡◌, ◌≢◌, refl, sym, ◌∙◌, ap, List, [], ◌∷◌, Bool, true, false, Option, none, some, arith, inl,
  inr, Option-cases, ◌||◌, Bool-cases,
}
use clackd.Error.{Result, ok, Result-cases}
use clackd.Keymap.{Pos, Map, get, remove, keys, cmp, same}
use clackd.Keymap.Laws.{eq_of_cmp, cmp_refl}
use clackd.Keymap.Sorted.{IsSorted, get-remove, remove-IsSorted}
use clackd.Via.{CoalescerTransport}
use clackd.Via.Device.{IsDevice}
use clackd.Via.Coalescer.{HashOrder, flush_keys, flush_buffer}

abbrev has_pos : Pos → List Pos → Bool
has_pos p [] = false
has_pos p (q ∷ qs) = same p q || has_pos p qs

-- Iterating a hash map meets each of its keys, and each of the set's channels.
pub record IsOrder (order : HashOrder) : Type 0 where
  pub meets :
      (p : Pos) (ps : List Pos) → has_pos p ps ≡ true → has_pos p (order.positions ps) ≡ true

-- What a read sees: the pending write, or else the device.
abbrev pub over : Option ℕ → ℕ → ℕ
over (some kc) d = kc
over none d = d

abbrev pub seen : (Pos → ℕ) → Map ℕ → Pos → ℕ
seen v buffer p = over (get buffer p) (v p)

has_pos-keys : (m : Map ℕ) (p : Pos) (kc : ℕ) → get m p ≡ some kc → has_pos p (keys m) ≡ true
unfolding keys get
has_pos-keys [] p kc e = cc
has_pos-keys ((q, v) ∷ m) p kc e = ground (arith, has_pos-keys m p kc)

get-none : (m : Map ℕ) → ((p : Pos) → get m p ≡ none) → m ≡ []
unfolding get
get-none [] h = refl
get-none ((q, v) ∷ m) h = absurd (ground (arith, h q, cmp_refl q))

module _ (T : CoalescerTransport) (order : HashOrder) (view : T.State → Pos → ℕ)
    (Ready : T.State → Type 0) (device : IsDevice T view Ready) where
  -- A write that was sent shows what it shadowed.
  seen_sent :
      (t : T.State) (buffer : Map ℕ) (p q : Pos) (kc : ℕ)
      → Ready t
      → IsSorted buffer
      → get buffer p ≡ some kc
      → (T.set_keycode p kc t).0 ≡ ok tt
      → seen (view (T.set_keycode p kc t).1) (remove buffer p) q ≡ seen (view t) buffer q
  seen_sent t buffer p q kc r s e sent = elim (Bool-cases (same q p)) [
    | inl eq ↦
        let k : q ≡ p = ground (arith, eq_of_cmp q p) in
        rw k (ground (arith, get-remove buffer p p s, cmp_refl p, device.set_self t p kc r sent))
    | inr ne ↦
        let k : q ≢ p = λ k. ground (arith, ap (λ x. cmp x p) k, cmp_refl p) in
        ground (arith, get-remove buffer p q s, device.set_other t p q kc r k)
  ]

  -- A write that failed stays in the buffer and shadows its own position only.
  seen_failed :
      (t : T.State) (buffer : Map ℕ) (p q : Pos) (kc : ℕ)
      → Ready t
      → get buffer p ≡ some kc
      → seen (view (T.set_keycode p kc t).1) buffer q ≡ seen (view t) buffer q
  seen_failed t buffer p q kc r e = elim (Option-cases (get buffer q)) [
    | inr (v, h) ↦ rw h
    | inl h ↦ rw h (
        device.set_other t p q kc r
          λ k. let x : none ≡ some kc = sym h ∙ ap (get buffer) k ∙ e in cc)
  ]

  -- The buffer after a flush holds what is left of the one before, and no key that was reached.
  record Flushed (ps : List Pos) (t : T.State) (buffer : Map ℕ)
      (r : Result (Unit {0}) × T.State × Map ℕ) : Type 0 where
    pub ready : Ready r.1
    pub sorted : IsSorted r.2
    pub same_seen : (q : Pos) → seen (view r.1) r.2 q ≡ seen (view t) buffer q
    shrinks : (q : Pos) → get buffer q ≡ none → get r.2 q ≡ none
    reached : r.0 ≡ ok tt → (q : Pos) → has_pos q ps ≡ true → get r.2 q ≡ none

  get-gone : (buffer : Map ℕ) (p : Pos) → IsSorted buffer → get (remove buffer p) p ≡ none
  get-gone buffer p s = ground (arith, get-remove buffer p p s, cmp_refl p)

  reached-cons :
      (p : Pos) (ps : List Pos) (m : Map ℕ)
      → get m p ≡ none
      → ((q : Pos) → has_pos q ps ≡ true → get m q ≡ none)
      → (q : Pos) → has_pos q (p ∷ ps) ≡ true
      → get m q ≡ none
  reached-cons p ps m h k q e = elim (Bool-cases (same q p)) [
    | inl eq ↦ let x : q ≡ p = ground (arith, eq_of_cmp q p) in rw x h
    | inr ne ↦ k q (ground arith)
  ]

  flush_keys-Flushed :
      (ps : List Pos) (t : T.State) (buffer : Map ℕ)
      → Ready t
      → IsSorted buffer
      → Flushed ps t buffer (flush_keys T order ps t buffer)
  unfolding flush_keys
  flush_keys-Flushed [] t buffer r s = record {
    ready = r;
    sorted = s;
    same_seen = λ q. refl;
    shrinks = λ q h. h;
    reached = λ e q h. cc;
  }
  flush_keys-Flushed (p ∷ ps) t buffer r s = elim (Option-cases (get buffer p)) [
    | inl e ↦
        let ih = flush_keys-Flushed ps t buffer r s in
        rw (e, flush_keys)
          (record {
            ready = ih.ready;
            sorted = ih.sorted;
            same_seen = ih.same_seen;
            shrinks = ih.shrinks;
            reached = λ k. reached-cons p ps _ (ih.shrinks p e) (ih.reached k);
          })
    | inr (kc, e) ↦ elim (Result-cases (T.set_keycode p kc t).0) [
      | inl (u, sent) ↦
          let t' = (T.set_keycode p kc t).1 in
          let m = remove buffer p in
          let ih =
            flush_keys-Flushed ps t' m (device.set_ready t p kc r) (remove-IsSorted buffer p s) in
          rw (e, sent, flush_keys)
            (record {
              ready = ih.ready;
              sorted = ih.sorted;
              same_seen = λ q. ih.same_seen q ∙ seen_sent t buffer p q kc r s e sent;
              shrinks = λ q h. ih.shrinks q (ground (arith, get-remove buffer p q s));
              reached =
                  λ k. reached-cons p ps _ (ih.shrinks p (get-gone buffer p s)) (ih.reached k);
            })
      | inr (x, failed) ↦
          rw (e, failed, flush_keys)
            (record {
              ready = device.set_ready t p kc r;
              sorted = s;
              same_seen = λ q. seen_failed t buffer p q kc r e;
              shrinks = λ q h. h;
              reached = λ k. cc;
            })
    ]
  ]

  -- What a flush promises, whether it succeeds or fails.
  pub record Drains (t : T.State) (buffer : Map ℕ) (r : Result (Unit {0}) × T.State × Map ℕ)
      : Type 0 where
    pub ready : Ready r.1
    pub sorted : IsSorted r.2
    pub same_seen : (q : Pos) → seen (view r.1) r.2 q ≡ seen (view t) buffer q
    pub emptied : r.0 ≡ ok tt → r.2 ≡ []

  module _ (lawful : IsOrder order) where
    -- A flush sends the pending writes one by one: at its end, successful or not, every position
    -- reads as before, from what is left of the buffer or else from the device, and after a
    -- successful one the buffer is empty, so the device holds every write.
    pub flush_buffer-Drains :
        (t : T.State) (buffer : Map ℕ)
        → Ready t
        → IsSorted buffer
        → Drains t buffer (flush_buffer T order t buffer)
    unfolding flush_buffer
    flush_buffer-Drains t [] r s = record {
      ready = r;
      sorted = s;
      same_seen = λ q. refl;
      emptied = λ e. refl;
    }
    flush_buffer-Drains t (x ∷ m) r s =
        let f = flush_keys-Flushed (order.positions (keys (x ∷ m))) t (x ∷ m) r s in
        record {
          ready = f.ready;
          sorted = f.sorted;
          same_seen = f.same_seen;
          emptied = λ e. get-none _ λ p. elim (Option-cases (get (x ∷ m) p)) [
            | inl h ↦ f.shrinks p h
            | inr (kc, h) ↦
                f.reached e p (lawful.meets p (keys (x ∷ m)) (has_pos-keys (x ∷ m) p kc h))
          ];
        }

  flush_keys-accepts :
      ((t : T.State) (p : Pos) (kc : ℕ) → Ready t → (T.set_keycode p kc t).0 ≡ ok tt)
      → (ps : List Pos) (t : T.State) (buffer : Map ℕ) → Ready t
      → (flush_keys T order ps t buffer).0 ≡ ok tt
  unfolding flush_keys
  flush_keys-accepts accepts [] t buffer r = refl
  flush_keys-accepts accepts (p ∷ ps) t buffer r = elim (Option-cases (get buffer p)) [
    | inl e ↦ rw (e, flush_keys) (flush_keys-accepts accepts ps t buffer r)
    | inr (kc, e) ↦
        rw (e, accepts t p kc r, flush_keys)
          (flush_keys-accepts accepts ps (T.set_keycode p kc t).1 (remove buffer p)
            (device.set_ready t p kc r))
  ]

  -- On a device that accepts every write while it is in step with the host, a flush succeeds.
  flush_buffer-accepts :
      (t : T.State) (buffer : Map ℕ)
      → Ready t
      → ((t : T.State) (p : Pos) (kc : ℕ) → Ready t → (T.set_keycode p kc t).0 ≡ ok tt)
      → (flush_buffer T order t buffer).0 ≡ ok tt
  unfolding flush_buffer
  flush_buffer-accepts t [] r accepts = refl
  flush_buffer-accepts t (x ∷ m) r accepts = flush_keys-accepts accepts _ t (x ∷ m) r
