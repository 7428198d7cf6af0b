-- ===== src/Heartbeat/Workers.antt =====
-- The list of workers and their handles, through add_worker() and remove_worker().
use blue_thread.Prelude.{
  ℕ, ◌+◌, ◌≤◌, ◌<◌, ◌≡◌, ◌≢◌, refl, sym, ap, ◌∙◌, inl, inr, ◌↔◌, List, [], ◌∷◌, none, some, String,
  Bool-cases, Option-cases, ==_iff, ==_refl, ◌==◌, update, erase, In, Distinct, done, arith, M,
}
use blue_thread.BackTrace.{BackTrace}
use blue_thread.RwLock.{PthreadRwLock, ReadersWriter}
use blue_thread.SharedMutex.{SharedWorld}
use blue_thread.SharedMutex.Plain.{IsAt, lock_open, unlock_open}
use blue_thread.Heartbeat.{
  Handle, HeartbeatMap, erase_at, new_handle, push_worker, drop_worker, add_worker, remove_worker,
  locked, on_rwlock, no_throw, find_handle,
}
use blue_thread.Heartbeat.Items.{
  item_of, item_at, Paired, erase_at-erase, erase_at-Paired, erase_at-Distinct, In-erase_at,
  update-Paired,
}

erase_at_front : (n a : ℕ) (ns l : List ℕ) → (erase_at n (n ∷ ns) (a ∷ l)).0 ≡ ns
unfolding erase_at
erase_at_front n a ns l = rw (==_refl n) refl

In-erase : (a b : ℕ) (l : List ℕ) → In b (erase a l) → In b l
In-erase a b [] h = h
In-erase a b (x ∷ xs) h = ground (arith, In-erase a b xs)

In-erase_of : (a b : ℕ) (l : List ℕ) → In b l → b ≢ a → In b (erase a l)
In-erase_of a b [] h ne = h
In-erase_of a b (x ∷ xs) h ne = ground (arith, In-erase_of a b xs)

erase-Distinct : (a : ℕ) (l : List ℕ) → Distinct l → Distinct (erase a l) × (¬ In a (erase a l))
erase-Distinct a [] d = (tt, λ h. h)
erase-Distinct a (x ∷ xs) d = ground (arith, erase-Distinct a xs d.1, In-erase a x xs, d.0)

erase_front : (a : ℕ) (l : List ℕ) → erase a (a ∷ l) ≡ l
erase_front a l = rw (==_refl a)

module _ {Native : Type 0} {p : PthreadRwLock Native} (c : ReadersWriter p) where
  -- The lock is free, and the list has each allocated handle once.
  pub record IsWellFormed (s : HeartbeatMap Native) : Type 0 where
    pub open_lock : IsAt c none 0 s.rwlock
    pub distinct : Distinct s.workers
    pub allocated : (a : ℕ) → In a s.workers → s.handles a ≢ none
    pub listed : (a : ℕ) → s.handles a ≢ none → In a s.workers
    pub fresh : (a : ℕ) → s.next_address ≤ a → s.handles a ≡ none
    pub items : Paired s.handles s.nodes s.workers
    pub distinct_nodes : Distinct s.nodes
    pub old_nodes : (n : ℕ) → In n s.nodes → n < s.next_node

  -- A new worker with its node.
  abbrev pub entry_of : String → ℕ → ℕ → Handle
  entry_of name thread_id n = record (new_handle name) { list_item = some n; thread_id = thread_id }

  -- The handle is new and at the front; all others are as before.
  pub record Added (name : String) (thread_id a : ℕ) (s t : HeartbeatMap Native) : Type 0 where
    pub was_free : s.handles a ≡ none
    pub front : t.workers ≡ a ∷ s.workers
    pub front_node : t.nodes ≡ s.next_node ∷ s.nodes
    pub stored : t.handles a ≡ some (entry_of name thread_id s.next_node)
    pub others : (b : ℕ) → b ≢ a → t.handles b ≡ s.handles b
    pub well_formed : IsWellFormed t

  pub record Removed (a : ℕ) (s t : HeartbeatMap Native) : Type 0 where
    pub list : t.workers ≡ erase a s.workers
    pub list_nodes :
        (n : ℕ) → item_of (s.handles a) ≡ some n → t.nodes ≡ (erase_at n s.nodes s.workers).0
    pub gone : t.handles a ≡ none
    pub unlisted : (b : ℕ) → In b t.workers ↔ (In b s.workers × (b ≢ a))
    pub others : (b : ℕ) → b ≢ a → t.handles b ≡ s.handles b
    pub well_formed : IsWellFormed t

  -- A body under the lock of a map with a free lock, if it leaves the lock alone.
  locked_run :
      {A : Type 0} (tid : ℕ) (bt : BackTrace) (f : M (HeartbeatMap Native) A)
      (g : HeartbeatMap Native → HeartbeatMap Native) (x : A) (s : HeartbeatMap Native)
      → IsAt c none 0 s.rwlock
      → ((w : SharedWorld Native)
          → f (record s { rwlock = w }) ≡ done x (record (g s) { rwlock = w }))
      → (w : SharedWorld Native) × (locked p tid bt f s ≡ done x (record (g s) { rwlock = w }))
        × IsAt c none 0 w
  unfolding locked on_rwlock no_throw
  locked_run tid bt f g x s h run =
      let (v, e, a) = lock_open c tid bt s.rwlock h in
      let (w, d, b) = unlock_open c tid bt v a in (w, rw (e, run v, d) refl, b)

  abbrev added : String → ℕ → HeartbeatMap Native → HeartbeatMap Native
  added name thread_id s = record s {
    handles = update s.handles s.next_address (some (entry_of name thread_id s.next_node));
    next_address = s.next_address + 1;
    workers = s.next_address ∷ s.workers;
    nodes = s.next_node ∷ s.nodes;
    next_node = s.next_node + 1;
  }

  added-Added :
      (name : String) (thread_id : ℕ) (s : HeartbeatMap Native) (w : SharedWorld Native)
      → IsWellFormed s
      → IsAt c none 0 w
      → Added name thread_id s.next_address s (record (added name thread_id s) { rwlock = w })
  added-Added name thread_id s w v o =
      let free : s.handles s.next_address ≡ none = v.fresh s.next_address (omega arith) in
      record {
        was_free = free;
        front = refl;
        front_node = refl;
        stored = ground arith;
        others = λ b ne. ground arith;
        well_formed = record {
          open_lock = o;
          distinct = (λ h. v.allocated s.next_address h free, v.distinct);
          allocated = λ a h. ground (arith, v.allocated a);
          listed = λ a h. ground (arith, v.listed a);
          fresh = λ a h. ground (arith, v.fresh a (omega arith));
          items = (
            ground arith,
            update-Paired s.handles s.nodes s.workers s.next_address
                (some (entry_of name thread_id s.next_node)) v.items
                (λ h. v.allocated s.next_address h free),
          );
          distinct_nodes =
              (λ h. let old = v.old_nodes s.next_node h in omega arith, v.distinct_nodes);
          old_nodes = λ n h. elim h [
            | inl e ↦ omega arith
            | inr i ↦ let old = v.old_nodes n i in omega arith
          ];
        };
      }

  -- add_worker() of a well-formed map whose lock is free returns a handle that was not there before,
  -- at the front of the list and with no timeouts, and the map is well-formed.
  pub add_worker-Added :
      (tid : ℕ) (bt : BackTrace) (name : String) (thread_id : ℕ) (s : HeartbeatMap Native)
      → IsWellFormed s
      → (a : ℕ) × (t : HeartbeatMap Native) × (add_worker p tid bt name thread_id s ≡ done a t)
        × Added name thread_id a s t
  unfolding add_worker push_worker
  add_worker-Added tid bt name thread_id s v =
      let (w, e, o) =
        locked_run tid bt (push_worker name thread_id) (added name thread_id) s.next_address s
          v.open_lock (λ u. refl) in
      (
        s.next_address,
        record (added name thread_id s) { rwlock = w },
        e,
        added-Added name thread_id s w v o,
      )

  abbrev removed : ℕ → ℕ → HeartbeatMap Native → HeartbeatMap Native
  removed n a s = record s {
    workers = erase a s.workers;
    nodes = (erase_at n s.nodes s.workers).0;
    handles = update s.handles a none;
  }

  removed-Removed :
      (n a : ℕ) (s : HeartbeatMap Native) (w : SharedWorld Native)
      → IsWellFormed s
      → IsAt c none 0 w
      → In a s.workers
      → item_of (s.handles a) ≡ some n
      → Removed a s (record (removed n a s) { rwlock = w })
  removed-Removed n a s w v o there item =
      let same : (erase_at n s.nodes s.workers).1 ≡ erase a s.workers =
        erase_at-erase s.handles s.nodes s.workers a n v.items v.distinct_nodes there item in
      let paired : Paired s.handles (erase_at n s.nodes s.workers).0 (erase a s.workers) =
        rw same at (erase_at-Paired s.handles s.nodes s.workers n v.items) in
      let (d, absent) = erase-Distinct a s.workers v.distinct in
      record {
        list = refl;
        list_nodes = λ m e.
            let one : n ≡ m = cc (item, e) in ap (λ (x : ℕ). (erase_at x s.nodes s.workers).0) one;
        gone = ground arith;
        unlisted = λ b. (
          λ h. (In-erase a b s.workers h, λ e. ground arith),
          λ (h, ne). In-erase_of a b s.workers h ne,
        );
        others = λ b ne. ground arith;
        well_formed = record {
          open_lock = o;
          distinct = d;
          allocated = λ b h. ground (arith, v.allocated b, In-erase a b s.workers h);
          listed = λ b h. elim (Bool-cases (a == b)) [
            | inl e ↦ absurd (ground arith)
            | inr e ↦ In-erase_of a b s.workers (v.listed b (ground arith)) (ground arith)
          ];
          fresh = λ b h. ground (arith, v.fresh b h);
          items =
              update-Paired s.handles (erase_at n s.nodes s.workers).0 (erase a s.workers) a none
                paired absent;
          distinct_nodes = erase_at-Distinct s.nodes s.workers n v.distinct_nodes;
          old_nodes = λ x h. v.old_nodes x (In-erase_at s.nodes s.workers n x h);
        };
      }

  -- A handle that is allocated knows its node.
  item_known :
      (a : ℕ) (s : HeartbeatMap Native)
      → IsWellFormed s
      → s.handles a ≢ none
      → (n : ℕ) × (h : Handle) × (s.handles a ≡ some h) × (h.list_item ≡ some n)
  item_known a s v ne =
      let (n, e) = item_at s.handles s.nodes s.workers a v.items (v.listed a ne) in
      elim (Option-cases (s.handles a)) [
        | inl z ↦ absurd (ne z)
        | inr (h, z) ↦ (n, h, z, rw z at e)
      ]

  drop_worker-eq :
      (n a : ℕ) (h : Handle) (s : HeartbeatMap Native)
      → IsWellFormed s
      → s.handles a ≢ none
      → s.handles a ≡ some h
      → h.list_item ≡ some n
      → (w : SharedWorld Native)
      → drop_worker a (record s { rwlock = w }) ≡ done tt (record (removed n a s) { rwlock = w })
  unfolding drop_worker find_handle
  drop_worker-eq n a h s v ne e i w =
      let item : item_of (s.handles a) ≡ some n = rw e i in
      let same : (erase_at n s.nodes s.workers).1 ≡ erase a s.workers =
        erase_at-erase s.handles s.nodes s.workers a n v.items v.distinct_nodes (v.listed a ne)
          item in
      rw (e, i, ← same) refl

  -- remove_worker() of a handle of a well-formed map whose lock is free returns with the handle freed
  -- and off the list, all others as before, and the map well-formed.
  pub remove_worker-Removed :
      (tid : ℕ) (bt : BackTrace) (a : ℕ) (s : HeartbeatMap Native)
      → IsWellFormed s
      → s.handles a ≢ none
      → (t : HeartbeatMap Native) × (remove_worker p tid bt a s ≡ done tt t) × Removed a s t
  unfolding remove_worker
  remove_worker-Removed tid bt a s v ne =
      let (n, h, z, i) = item_known a s v ne in
      let (w, e, o) =
        locked_run tid bt (drop_worker a) (removed n a) tt s v.open_lock
          (drop_worker-eq n a h s v ne z i) in
      (
        record (removed n a s) { rwlock = w },
        e,
        removed-Removed n a s w v o (v.listed a ne) (rw z i),
      )

  -- After add_worker() the handle that it returned stands at the front of the list, is new and has the
  -- name, the thread and its node.
  pub record Stands (name : String) (thread_id a : ℕ) (s t : HeartbeatMap Native) : Type 0 where
    pub front : t.workers ≡ a ∷ s.workers
    pub front_node : t.nodes ≡ s.next_node ∷ s.nodes
    pub was_free : s.handles a ≡ none
    pub stored : t.handles a ≡ some (entry_of name thread_id s.next_node)

  -- The list, with its nodes, and the handles are as they were.
  pub record SameList (s u : HeartbeatMap Native) : Type 0 where
    pub same_workers : u.workers ≡ s.workers
    pub same_nodes : u.nodes ≡ s.nodes
    pub same_handles : (b : ℕ) → u.handles b ≡ s.handles b

  -- add_worker() of a well-formed map whose lock is free returns a new handle with the name and the
  -- thread, which stands at the front of the list and knows its node. remove_worker() of that handle
  -- then returns with the list, its nodes and the handles as they were before.
  pub add-remove :
      (tid : ℕ) (bt : BackTrace) (name : String) (thread_id : ℕ) (s : HeartbeatMap Native)
      → IsWellFormed s
      → (a : ℕ) × (t : HeartbeatMap Native) × (u : HeartbeatMap Native) × (add_worker p tid bt name
            thread_id s
          ≡ done a t)
        × Stands name thread_id a s t
        × (remove_worker p tid bt a t ≡ done tt u)
        × SameList s u
  add-remove tid bt name thread_id s v =
      let (a, t, e, ad) = add_worker-Added tid bt name thread_id s v in
      let there : t.handles a ≢ none = λ q. cc (ad.stored) in
      let (u, f, re) = remove_worker-Removed tid bt a t ad.well_formed there in
      let item : item_of (t.handles a) ≡ some s.next_node = rw ad.stored refl in
      (
        a,
        t,
        u,
        e,
        record {
          front = ad.front;
          front_node = ad.front_node;
          was_free = ad.was_free;
          stored = ad.stored;
        },
        f,
        record {
          same_workers = re.list ∙ ap (erase a) ad.front ∙ erase_front a s.workers;
          same_nodes =
              re.list_nodes s.next_node item
              ∙ ap (λ ns. (erase_at s.next_node ns t.workers).0) ad.front_node
              ∙ ap (λ l. (erase_at s.next_node (s.next_node ∷ s.nodes) l).0) ad.front
              ∙ erase_at_front s.next_node a s.nodes s.workers;
          same_handles = λ b. elim (Bool-cases (a == b)) [
            | inl q ↦ rw ((==_iff a b).0 q) at (re.gone ∙ sym ad.was_free)
            | inr q ↦ re.others b (ground arith) ∙ ad.others b (ground arith)
          ];
        },
      )
