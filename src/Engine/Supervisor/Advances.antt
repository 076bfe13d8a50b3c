-- ===== src/Engine/Supervisor/Advances.antt =====
-- src/engine/mod.rs: what a command may do to the supervisor's tables, and the elementary changes.
use clackd.Base.{
  ℕ, ◌+◌, ◌%◌, ◌^◌, ◌≤◌, ◌<◌, ◌≡◌, refl, sym, ◌∙◌, ◌⊎◌, List, [], ◌∷◌, ◌++◌, Bool, true, false,
  Option, none, some, String, arith, inl, inr, if◌then◌else◌,
}
use clackd.Hal.{KeyboardDriver}
use clackd.Engine.{Channel, find, same_id, DeviceHandle}
use clackd.Engine.Devices.{find-put, find-evict, eq_of_same}
use clackd.Engine.Supervisor.{
  LifecycleEvent, device_added, device_removed, layout_updated, ReconnectCtx, Supervisor, emit,
  start_reconnect_backoff, forget_reconnect, register, unregister,
}

-- Whether the last event about a device says that it was added.
abbrev listed_after : String → LifecycleEvent → Bool → Bool
listed_after id (device_added j) b = if same_id j id then true else b
listed_after id (device_removed j) b = if same_id j id then false else b
listed_after id (layout_updated j) b = b

abbrev listed : String → List LifecycleEvent → Bool → Bool
listed id [] b = b
listed id (e ∷ es) b = listed id es (listed_after id e b)

listed-snoc :
    (id : String) (es : List LifecycleEvent) (e : LifecycleEvent) (b : Bool)
    → listed id (es ++ (e ∷ [])) b ≡ listed_after id e (listed id es b)
listed-snoc id [] e b = refl
listed-snoc id (x ∷ es) e b = listed-snoc id es e (listed_after id x b)

last_eq : (a b : ℕ × ℕ) → some a ≡ some b → a.1 ≡ b.1
last_eq a b e = ground arith

issued_put :
    (n : ℕ) (o : Option (ℕ × ℕ)) (t : ℕ × ℕ) (b : Bool)
    → (o ≡ some t → t.1 < n)
    → (if b then some (n, n) else o) ≡ some t
    → t.1 < n + 1
issued_put n o t true old e = omega (arith, last_eq (n, n) t e)
issued_put n o t false old e = omega (arith, old e)

renewed :
    (n : ℕ) (o : Option (ℕ × ℕ)) (t : ℕ × ℕ) (b : Bool)
    → (if b then some (n, n) else o) ≡ some t
    → (o ≡ some t) ⊎ (n ≤ t.1)
renewed n o t true e = inr (omega (arith, last_eq (n, n) t e))
renewed n o t false e = inl e

module _ (D : KeyboardDriver) (World : Type 0) (channel : Channel) where
  abbrev pub Sup : Type 0
  Sup = Supervisor D World channel

  -- Who is attached, and who is being reconnected under which token.
  abbrev pub device_of : Sup → String → Option (DeviceHandle channel)
  device_of s id = find s.registry.devices id

  abbrev pub task_of : Sup → String → Option (ℕ × ℕ)
  task_of s id = find s.registry.reconnecting id

  pub record IsConsistent (s : Sup) : Type 0 where
    pub exclusive :
        (id : String) (h : DeviceHandle channel) → device_of s id ≡ some h → task_of s id ≡ none
    pub issued :
        (id : String) (t : ℕ × ℕ) → task_of s id ≡ some t → t.1 < s.registry.next_reconnect_token

  -- An attached device was announced, and not announced as removed since.
  abbrev pub IsAnnounced : Sup → Type 0
  IsAnnounced s =
      (id : String) (h : DeviceHandle channel)
      → device_of s id ≡ some h
      → listed id s.events false ≡ true

  -- What a command may do, of which at most `n` tokens are issued: it keeps the invariant, and a
  -- pending reconnection was pending before or has a new token.
  pub record Advances (n : ℕ) (s s' : Sup) : Type 0 where
    pub consistent : IsConsistent s → IsConsistent s'
    pub announces : IsAnnounced s → IsAnnounced s'
    pub grows : s.registry.next_reconnect_token ≤ s'.registry.next_reconnect_token
    pub spends : s'.registry.next_reconnect_token ≤ s.registry.next_reconnect_token + n
    pub renews :
        (id : String) (t : ℕ × ℕ)
        → task_of s' id ≡ some t
        → (task_of s id ≡ some t) ⊎ (s.registry.next_reconnect_token ≤ t.1)

  pub Advances-refl : (s : Sup) → Advances 0 s s
  Advances-refl s = record {
    consistent = λ h. h;
    announces = λ h. h;
    grows = omega arith;
    spends = omega arith;
    renews = λ id t e. inl e;
  }

  pub Advances-trans :
      (m n : ℕ) (a b c : Sup) → Advances m a b → Advances n b c → Advances (m + n) a c
  Advances-trans m n a b c h k = record {
    consistent = λ i. k.consistent (h.consistent i);
    announces = λ i. k.announces (h.announces i);
    grows = omega (arith, h.grows, k.grows);
    spends = omega (arith, h.spends, k.spends);
    renews = λ id t e. elim (k.renews id t e) [
      | inl old ↦ h.renews id t old
      | inr new ↦ inr (omega (arith, h.grows))
    ];
  }

  pub Advances-weaken : (m n : ℕ) (a b : Sup) → m ≤ n → Advances m a b → Advances n a b
  Advances-weaken m n a b le h = record {
    consistent = h.consistent;
    announces = h.announces;
    grows = h.grows;
    spends = omega (arith, h.spends);
    renews = h.renews;
  }

  pub forget-Advances :
      (id : String) (s : Sup) → Advances 0 s (forget_reconnect D World channel id s)
  unfolding forget_reconnect
  forget-Advances id s = record {
    consistent = λ h. record {
      exclusive = λ j d e. ground (arith, find-evict s.registry.reconnecting id j, h.exclusive j d);
      issued = λ j t e. ground (arith, find-evict s.registry.reconnecting id j, h.issued j t);
    };
    announces = λ h. h;
    grows = omega arith;
    spends = omega arith;
    renews = λ j t e. ground (arith, find-evict s.registry.reconnecting id j);
  }

  pub register-Advances :
      (id : String) (d : DeviceHandle channel) (s : Sup)
      → task_of s id ≡ none
      → Advances 0 s (register D World channel id d s)
  unfolding register emit
  register-Advances id d s free = record {
    consistent = λ h. record {
      exclusive = λ j d' e.
          ground (arith, find-put s.registry.devices id j d, h.exclusive j d', eq_of_same id j);
      issued = h.issued;
    };
    announces = λ h j d' e. ground (
      arith,
      find-put s.registry.devices id j d,
      h j d',
      listed-snoc j s.events (device_added id) false,
    );
    grows = omega arith;
    spends = omega arith;
    renews = λ j t e. inl e;
  }

  pub unregister-Advances : (id : String) (s : Sup) → Advances 0 s (unregister D World channel id s)
  unfolding unregister emit
  unregister-Advances id s = record {
    consistent = λ h. record {
      exclusive = λ j d e. ground (arith, find-evict s.registry.devices id j, h.exclusive j d);
      issued = h.issued;
    };
    announces = λ h j d e. ground (
      arith,
      find-evict s.registry.devices id j,
      h j d,
      listed-snoc j s.events (device_removed id) false,
    );
    grows = omega arith;
    spends = omega arith;
    renews = λ j t e. inl e;
  }

  pub backoff-Advances :
      (ctx : ReconnectCtx) (s : Sup)
      → device_of s ctx.device_id ≡ none
      → s.registry.next_reconnect_token + 1 < 2 ^ 64
      → Advances 1 s (start_reconnect_backoff D World channel ctx s)
  unfolding start_reconnect_backoff
  backoff-Advances ctx s free room =
      let n = s.registry.next_reconnect_token in
      let next : (n + 1) % 2 ^ 64 ≡ n + 1 = omega arith in
      let entry = find-put s.registry.reconnecting ctx.device_id in
      record {
        consistent = λ h. record {
          exclusive =
              λ j d e. ground (arith, entry j (n, n), h.exclusive j d, eq_of_same ctx.device_id j);
          issued = λ j t e. rw next (
              issued_put n (task_of s j) t (same_id ctx.device_id j) (h.issued j t)
                (sym (entry j (n, n)) ∙ e));
        };
        announces = λ h. h;
        grows = rw next (omega arith);
        spends = rw next (omega arith);
        renews =
            λ j t e. renewed n (task_of s j) t (same_id ctx.device_id j) (sym (entry j (n, n)) ∙ e);
      }

  -- A change that leaves the registry's tables alone.
  pub still : (s s' : Sup) → s'.registry ≡ s.registry → s'.events ≡ s.events → Advances 0 s s'
  still s s' e events = record {
    consistent = λ h. record {
      exclusive = λ j d k. rw e (h.exclusive j d (rw e at k));
      issued = λ j t k. rw e (h.issued j t (rw e at k));
    };
    announces = λ h j d k. rw events (h j d (rw e at k));
    grows = rw e (omega arith);
    spends = rw e (omega arith);
    renews = λ j t k. inl (rw e at k);
  }
