-- ===== src/OrderedMap/Session.antt =====
-- src/ordered-map.ts: what may happen between `begin` and `rollback`.
use mathlib.Core.List.{lookup, foldl-append, append_assoc}
use yasd.Prelude.{
  ℕ, ◌-◌, ◌≡◌, refl, sym, ap, subst, ◌∙◌, ◌≢◌, inl, inr, some, List, [], ◌∷◌, ◌++◌, length, take,
  drop, length-append, take-append_length, drop-append_length, arith, Option-cases,
}
use yasd.OrderedMap.Chain.{
  IsDistinct, next_key, update-update, remove-append, insert_before-remove, remove-IsDistinct,
  append-IsDistinct, update-IsDistinct,
}
use yasd.OrderedMap.{
  kept, OrderedMap, Undo, restore, unlink, link, begin, commit, rollback, record_undo, undo_one,
  undo_all, set, delete,
}

module _ {K V : Type 0} (dec : Discrete K) where
  -- The states that a client can reach from `m` with balanced transactions.
  pub data Session : OrderedMap K V → OrderedMap K V → Type 0 where
    here : {m : OrderedMap K V} → Session m m
    after_set : {m n : OrderedMap K V} → Session m n → (k : K) (v : V) → Session m (set dec n k v)
    after_delete : {m n : OrderedMap K V} → Session m n → (k : K) → Session m (delete dec n k).0
    committed :
        {m n p q : OrderedMap K V}
        → Session m n
        → Session (begin n) p
        → commit p ≡ some q
        → Session m q
    rolled_back :
        {m n p q : OrderedMap K V}
        → Session m n
        → Session (begin n) p
        → rollback dec p ≡ some q
        → Session m q

  -- What the journal of `n` holds beyond that of `m` leads back from `n` to `m`.
  record Restores (m n : OrderedMap K V) : Type 0 where
    journal : List (Undo K V)
    undo : n.undo ≡ journal ++ m.undo
    frames : n.frames ≡ m.frames
    back : undo_all dec journal n.entries ≡ m.entries
    distinct : IsDistinct dec n.entries

  Restores-refl : {m : OrderedMap K V} → IsDistinct dec m.entries → Restores m m
  unfolding undo_all
  Restores-refl d = record { journal = []; undo = refl; frames = refl; back = refl; distinct = d }

  undo_all-append :
      (us ws : List (Undo K V)) (es : List (K × V))
      → undo_all dec (us ++ ws) es ≡ undo_all dec ws (undo_all dec us es)
  unfolding undo_all
  undo_all-append us ws es = foldl-append (λ acc u. undo_one dec u acc) es us ws

  Restores-trans : {m n p : OrderedMap K V} → Restores m n → Restores n p → Restores m p
  Restores-trans {m} {n} {p} a b = record {
    journal = b.journal ++ a.journal;
    undo =
        b.undo
        ∙ (ap (λ us. b.journal ++ us) a.undo ∙ sym (append_assoc b.journal a.journal m.undo));
    frames = b.frames ∙ a.frames;
    back =
        undo_all-append b.journal a.journal p.entries
        ∙ (ap (λ es. undo_all dec a.journal es) b.back ∙ a.back);
    distinct = b.distinct;
  }

  record_undo_open :
      (u : Undo K V) (fs : List ℕ) (us : List (Undo K V)) → fs ≢ [] → record_undo u fs us ≡ u ∷ us
  unfolding record_undo
  record_undo_open u [] us h = absurd (h refl)
  record_undo_open u (f ∷ fs) us h = refl

  module _ (m : OrderedMap K V) (k : K) (opened : m.frames ≢ [])
      (d : IsDistinct dec m.entries) where
    set-Restores : (v : V) → Restores m (set dec m k v)
    unfolding set undo_all undo_one
    set-Restores v = elim (Option-cases (lookup dec k m.entries)) [
      | inl absent ↦
          rw (absent, set)
            (record {
              journal = unlink k ∷ [];
              undo = record_undo_open (unlink k) m.frames m.undo opened;
              frames = refl;
              back = remove-append dec k v m.entries absent;
              distinct = append-IsDistinct dec k v m.entries d absent;
            })
      | inr (old, found) ↦
          rw (found, set)
            (record {
              journal = restore k old ∷ [];
              undo = record_undo_open (restore k old) m.frames m.undo opened;
              frames = refl;
              back = update-update dec k v old m.entries found;
              distinct = update-IsDistinct dec k v m.entries d;
            })
    ]

    delete-Restores : Restores m (delete dec m k).0
    unfolding delete undo_all undo_one
    delete-Restores = elim (Option-cases (lookup dec k m.entries)) [
      | inl absent ↦ rw (absent, delete) (Restores-refl d)
      | inr (v, found) ↦
          rw (found, delete)
            (record {
              journal = link k v (next_key dec k m.entries) ∷ [];
              undo = record_undo_open _ m.frames m.undo opened;
              frames = refl;
              back = insert_before-remove dec k v m.entries d found;
              distinct = remove-IsDistinct dec k m.entries d;
            })
    ]

  take-sub : (js us : List (Undo K V)) → take (length (js ++ us) - length us) (js ++ us) ≡ js
  take-sub js us =
      let e : length (js ++ us) - length us ≡ length js = omega (arith, length-append js us) in
      rw e (take-append_length js us)

  drop-sub : (js us : List (Undo K V)) → drop (length (js ++ us) - length us) (js ++ us) ≡ us
  drop-sub js us =
      let e : length (js ++ us) - length us ≡ length js = omega (arith, length-append js us) in
      rw e (drop-append_length js us)

  -- The end of a transaction that began at `m`.
  begin-Restores-rollback : {m n : OrderedMap K V} → Restores (begin m) n → rollback dec n ≡ some m
  unfolding rollback begin
  begin-Restores-rollback {m} {n} r =
      rw (r.frames, rollback)
        (rw r.undo (rw (take-sub r.journal m.undo, drop-sub r.journal m.undo, r.back)))

  commit_open :
      (n : OrderedMap K V) (f : ℕ) (fs : List ℕ)
      → n.frames ≡ f ∷ fs
      → fs ≢ []
      → commit n ≡ some (record n { frames = fs })
  unfolding commit
  commit_open n f [] e h = absurd (h refl)
  commit_open n f (g ∷ gs) e h = rw (e, commit)

  begin-Restores-commit :
      {m n p : OrderedMap K V}
      → m.frames ≢ []
      → Restores (begin m) n
      → commit n ≡ some p
      → Restores m p
  unfolding begin
  begin-Restores-commit {m} {n} {p} h r e =
      let n' : OrderedMap K V = record n { frames = m.frames } in
      let same : n' ≡ p = cc (commit_open n (length m.undo) m.frames r.frames h) in
      subst (λ q. Restores m q) same
        (record {
          journal = r.journal;
          undo = r.undo;
          frames = refl;
          back = r.back;
          distinct = r.distinct;
        })

  begin_opens : (m : OrderedMap K V) → (begin m).frames ≢ []
  unfolding begin
  begin_opens m e = cc

  Session-Restores :
      {m n : OrderedMap K V} → Session m n → m.frames ≢ [] → IsDistinct dec m.entries → Restores m n
  unfolding begin
  Session-Restores here h d = Restores-refl d
  Session-Restores (after_set {n = n} s k v) h d =
      let r = Session-Restores s h d in
      Restores-trans r (set-Restores n k (λ z. h (sym r.frames ∙ z)) r.distinct v)
  Session-Restores (after_delete {n = n} s k) h d =
      let r = Session-Restores s h d in
      Restores-trans r (delete-Restores n k (λ z. h (sym r.frames ∙ z)) r.distinct)
  Session-Restores (committed {n = n} s t e) h d =
      let r = Session-Restores s h d in
      let inner = Session-Restores t (begin_opens n) r.distinct in
      Restores-trans r (begin-Restores-commit (λ z. h (sym r.frames ∙ z)) inner e)
  Session-Restores (rolled_back {m = m} {n = n} {q = q} s t e) h d =
      let r = Session-Restores s h d in
      let inner = Session-Restores t (begin_opens n) r.distinct in
      let same : n ≡ q = cc (begin-Restores-rollback inner) in subst (λ x. Restores m x) same r

  -- A transaction that is rolled back leaves a map with distinct keys exactly as it was, entries,
  -- their order, journal and open frames, whatever sets, deletes and balanced inner transactions
  -- it made.
  pub rollback-begin :
      {m n : OrderedMap K V}
      → Session (begin m) n
      → IsDistinct dec m.entries
      → rollback dec n ≡ some m
  unfolding begin
  rollback-begin {m} s d = begin-Restores-rollback (Session-Restores s (begin_opens m) d)

  pub Session-trans : {m n p : OrderedMap K V} → Session m n → Session n p → Session m p
  Session-trans r here = r
  Session-trans r (after_set s k v) = after_set (Session-trans r s) k v
  Session-trans r (after_delete s k) = after_delete (Session-trans r s) k
  Session-trans r (committed s t e) = committed (Session-trans r s) t e
  Session-trans r (rolled_back s t e) = rolled_back (Session-trans r s) t e

  frames-set : (m : OrderedMap K V) (k : K) (v : V) → (set dec m k v).frames ≡ m.frames
  unfolding set
  frames-set m k v = ground arith

  frames-delete : (m : OrderedMap K V) (k : K) → (delete dec m k).0.frames ≡ m.frames
  unfolding delete
  frames-delete m k = ground arith

  -- A balanced session leaves the open frames as they were.
  pub Session-frames : {m n : OrderedMap K V} → Session m n → n.frames ≡ m.frames
  unfolding begin commit rollback
  Session-frames here = refl
  Session-frames (after_set {n = n} s k v) = frames-set n k v ∙ Session-frames s
  Session-frames (after_delete {n = n} s k) = frames-delete n k ∙ Session-frames s
  Session-frames (committed {n = n} {p = p} {q = q} s t e) =
      ground (arith, Session-frames s, Session-frames t)
  Session-frames (rolled_back {n = n} {p = p} {q = q} s t e) =
      ground (arith, Session-frames s, Session-frames t)

  -- So the transaction that a session runs in can be ended.
  pub Session-commit :
      (m : OrderedMap K V) {n : OrderedMap K V}
      → Session (begin m) n
      → (p : OrderedMap K V) × (commit n ≡ some p)
  unfolding begin commit
  Session-commit m {n} s =
      (record n { frames = m.frames; undo = kept m.frames n.undo }, rw (Session-frames s, commit))

  pub Session-rollback :
      (m : OrderedMap K V) {n : OrderedMap K V}
      → Session (begin m) n
      → (p : OrderedMap K V) × (rollback dec n ≡ some p)
  unfolding begin rollback
  Session-rollback m {n} s =
      let k = length n.undo - length m.undo in
      (
        record {
          entries = undo_all dec (take k n.undo) n.entries;
          undo = drop k n.undo;
          frames = m.frames;
        },
        rw (Session-frames s, rollback),
      )

  set-IsDistinct :
      (m : OrderedMap K V) (k : K) (v : V)
      → IsDistinct dec m.entries
      → IsDistinct dec (set dec m k v).entries
  unfolding set
  set-IsDistinct m k v d = elim (Option-cases (lookup dec k m.entries)) [
    | inl absent ↦ rw (absent, set) (append-IsDistinct dec k v m.entries d absent)
    | inr (old, found) ↦ rw (found, set) (update-IsDistinct dec k v m.entries d)
  ]

  delete-IsDistinct :
      (m : OrderedMap K V) (k : K)
      → IsDistinct dec m.entries
      → IsDistinct dec (delete dec m k).0.entries
  unfolding delete
  delete-IsDistinct m k d = elim (Option-cases (lookup dec k m.entries)) [
    | inl absent ↦ rw (absent, delete) d
    | inr (v, found) ↦ rw (found, delete) (remove-IsDistinct dec k m.entries d)
  ]

  pub entries-commit : (m n : OrderedMap K V) → commit m ≡ some n → m.entries ≡ n.entries
  unfolding commit
  entries-commit m n e = ground arith

  -- Distinct keys stay distinct under any sets, deletes and balanced transactions, committed or
  -- rolled back.
  pub Session-IsDistinct :
      {m n : OrderedMap K V} → Session m n → IsDistinct dec m.entries → IsDistinct dec n.entries
  unfolding begin commit
  Session-IsDistinct here d = d
  Session-IsDistinct (after_set {n = n} s k v) d = set-IsDistinct n k v (Session-IsDistinct s d)
  Session-IsDistinct (after_delete {n = n} s k) d = delete-IsDistinct n k (Session-IsDistinct s d)
  Session-IsDistinct (committed {p = p} {q = q} s t e) d =
      let i : IsDistinct dec p.entries = Session-IsDistinct t (Session-IsDistinct s d) in
      subst (λ es. IsDistinct dec es) (entries-commit p q e) i
  Session-IsDistinct (rolled_back {n = n} {q = q} s t e) d =
      let i = Session-IsDistinct s d in
      let same : n ≡ q = cc (rollback-begin t i) in subst (λ x. IsDistinct dec x.entries) same i
