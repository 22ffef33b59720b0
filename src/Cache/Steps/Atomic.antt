-- ===== src/Cache/Steps/Atomic.antt =====
-- src/cache.ts: `atomic` of `KVCache`, when its body throws and as a step.
use mathlib.Core.List
use yasd.Prelude.{ℕ, ◌≡◌, refl, sym, ap, subst, ◌∙◌, Bool, some}
use yasd.Text.{Text, text_discrete}
use yasd.Result.{Result, Error, ok, err}
use yasd.OrderedMap
use yasd.OrderedMap.{OrderedMap}
use yasd.OrderedMap.Chain.{IsDistinct}
use yasd.OrderedMap.Session
use yasd.Cache.State.{Entry, Options, Cache, Action, pure, raise, modify, ◌>>=◌, ◌>>◌}
use yasd.Cache.Atomic.{
  saved, begin_all, or_no_transaction, commit_all, rollback_all, restore_state, pass_expired,
  pop_frame, attempt, recover, atomic,
}
use yasd.Cache.Steps.Relation.{with_saved, with_maps, Runs, here, committed, aborted, Follows}
use yasd.Cache.Steps.Sessions.{Sessions, Runs-Sessions}

module _ {V : Type 0} where
  -- No key stands twice in a map.
  pub record IsDistinctCache (c : Cache V) : Type 0 where
    pub map : IsDistinct text_discrete c.map.entries
    pub key_versions : IsDistinct text_discrete c.key_versions.entries
    pub expiring : IsDistinct text_discrete c.expiring.entries

  module _ (c : Cache V) {m : OrderedMap Text (Entry V)} {v x : OrderedMap Text ℕ} where
    commit_all_lem :
        OrderedMap.commit c.map ≡ some m
        → OrderedMap.commit c.key_versions ≡ some v
        → OrderedMap.commit c.expiring ≡ some x
        → commit_all c ≡ (ok tt, with_maps m v x c)
    unfolding commit_all or_no_transaction
    commit_all_lem p q r = rw p (rw q (rw r refl))

    rollback_all_lem :
        OrderedMap.rollback text_discrete c.map ≡ some m
        → OrderedMap.rollback text_discrete c.key_versions ≡ some v
        → OrderedMap.rollback text_discrete c.expiring ≡ some x
        → rollback_all c ≡ (ok tt, with_maps m v x c)
    unfolding rollback_all or_no_transaction
    rollback_all_lem p q r = rw p (rw q (rw r refl))

  -- The state after an atomic section on `c` whose body threw in the state `d`.
  abbrev pub restored : Cache V → Cache V → Cache V
  restored c d = record c {
    generation = d.generation;
    change_frames = d.change_frames;
    notified = d.notified;
    ticks = d.ticks;
  }

  module _ {A B : Type 0} (m : Action V A) (f : A → Action V B) (c d : Cache V) where
    after : Result A × Cache V → Result B × Cache V
    after p = elim p.0 [ ok a ↦ f a p.1 | err x ↦ raise x p.1 ]

    pub bind_ok : (a : A) → m c ≡ (ok a, d) → (m >>= f) c ≡ f a d
    unfolding after
    bind_ok a e = ap after e

    pub bind_err : (x : Error) → m c ≡ (err x, d) → (m >>= f) c ≡ (err x, d)
    unfolding after
    bind_err x e = ap after e

  module _ {A : Type 0} (fn : Action V A) (c d : Cache V) where
    pub atomic_ok :
        (a : A) (m : OrderedMap Text (Entry V)) (v x : OrderedMap Text ℕ)
        → fn (begin_all c) ≡ (ok a, d)
        → OrderedMap.commit d.map ≡ some m
        → OrderedMap.commit d.key_versions ≡ some v
        → OrderedMap.commit d.expiring ≡ some x
        → atomic fn c ≡ (ok a, pass_expired d.expired_frames (with_maps m v x d))
    unfolding atomic attempt recover
    atomic_ok a m v x e p q r =
        let k : A → Action V A =
          λ a. commit_all >> (modify (λ c. pass_expired c.expired_frames c) >> pure a) in
        ap (λ y. recover (saved c) y.0 y.1)
          (bind_ok fn k (begin_all c) d a e
            ∙ bind_ok commit_all (λ _. modify (λ c. pass_expired c.expired_frames c) >> pure a) d
                (with_maps m v x d) tt (commit_all_lem d p q r))

    pub atomic_err :
        (y : Error) (m : OrderedMap Text (Entry V)) (v x : OrderedMap Text ℕ)
        → fn (begin_all c) ≡ (err y, d)
        → OrderedMap.rollback text_discrete d.map ≡ some m
        → OrderedMap.rollback text_discrete d.key_versions ≡ some v
        → OrderedMap.rollback text_discrete d.expiring ≡ some x
        → atomic fn c ≡ (
          err y,
          with_saved
              (saved c)
              (with_maps m v x (record d { expired_frames = List.tail d.expired_frames })),
        )
    unfolding atomic attempt recover restore_state pop_frame
    atomic_err y m v x h p q r =
        let back = with_saved (saved c) (with_maps m v x (pop_frame d)) in
        let k : A → Action V A =
          λ a. commit_all >> (modify (λ c. pass_expired c.expired_frames c) >> pure a) in
        ap (λ z. recover (saved c) z.0 z.1) (bind_err fn k (begin_all c) d y h)
        ∙ bind_ok (restore_state (saved c)) (λ _. raise {A = A} y) (pop_frame d) back tt
            (bind_ok rollback_all (λ _. modify (with_saved (saved c))) (pop_frame d)
              (with_maps m v x (pop_frame d)) tt (rollback_all_lem (pop_frame d) p q r))

module _ {V : Type 0} (o : Options) where
  -- The state after a section whose body, made of the cache's own changes, threw in the state `d`.
  pub atomic-restored :
      {A : Type 0} {exact : Bool} (fn : Action V A) (c d : Cache V) (e : Error)
      → Follows o exact fn
      → IsDistinctCache c
      → fn (begin_all c) ≡ (err e, d)
      → atomic fn c ≡ (err e, restored c d)
  unfolding begin_all
  atomic-restored fn c d e f i h =
      let s : Sessions (begin_all c) d =
        subst (λ p. Sessions (begin_all c) p.1) h (Runs-Sessions o (f.from (begin_all c))) in
      atomic_err fn c d e c.map c.key_versions c.expiring h
        (Session.rollback-begin text_discrete s.map i.map)
        (Session.rollback-begin text_discrete s.key_versions i.key_versions)
        (Session.rollback-begin text_discrete s.expiring i.expiring)
      ∙ ap
          (λ fs. (
            err e,
            record c {
              generation = d.generation;
              change_frames = d.change_frames;
              notified = d.notified;
              ticks = d.ticks;
              expired_frames = fs;
            },
          ))
          s.outer

  module _ {A : Type 0} {exact : Bool} (fn : Action V A) (f : Follows o exact fn)
      (c : Cache V) where
    section_run :
        (r : Result A) (d : Cache V) → fn (begin_all c) ≡ (r, d) → Runs o exact c (atomic fn c).1
    unfolding begin_all
    section_run (ok a) d h =
        let t : Runs o exact (begin_all c) d =
          subst (λ p. Runs o exact (begin_all c) p.1) h (f.from (begin_all c)) in
        let s = Runs-Sessions o t in
        let (m, p) = Session.Session-commit text_discrete c.map s.map in
        let (v, q) = Session.Session-commit text_discrete c.key_versions s.key_versions in
        let (x, u) = Session.Session-commit text_discrete c.expiring s.expiring in
        subst (λ z. Runs o exact c z.1) (sym (atomic_ok fn c d a m v x h p q u))
          (committed m v x here t p q u)
    section_run (err y) d h =
        let t : Runs o exact (begin_all c) d =
          subst (λ p. Runs o exact (begin_all c) p.1) h (f.from (begin_all c)) in
        let s = Runs-Sessions o t in
        let (m, p) = Session.Session-rollback text_discrete c.map s.map in
        let (v, q) = Session.Session-rollback text_discrete c.key_versions s.key_versions in
        let (x, u) = Session.Session-rollback text_discrete c.expiring s.expiring in
        subst (λ z. Runs o exact c z.1) (sym (atomic_err fn c d y m v x h p q u))
          (aborted m v x here t p q u)

  -- An atomic section is itself a run of changes.
  pub Follows-atomic :
      {A : Type 0} {exact : Bool} (fn : Action V A)
      → Follows o exact fn
      → Follows o exact (atomic fn)
  Follows-atomic fn f = record {
    from = λ c. section_run fn f c (fn (begin_all c)).0 (fn (begin_all c)).1 refl;
  }

  module _ {A : Type 0} {exact : Bool} (fn : Action V A) (f : Follows o exact fn) (c : Cache V)
      (i : IsDistinctCache c) (d : Cache V) (e : Error) (h : atomic fn c ≡ (err e, d)) where
    thrown_from : (r : Result A) (t : Cache V) → fn (begin_all c) ≡ (r, t) → d ≡ restored c d
    unfolding begin_all
    thrown_from (err y) t p =
        let same : d ≡ restored c t = ap (λ z. z.1) (sym h ∙ atomic-restored fn c t y f i p) in
        same ∙ sym (ap (restored c) same)
    thrown_from (ok a) t p =
        let s : Sessions (begin_all c) t =
          subst (λ z. Sessions (begin_all c) z.1) p (Runs-Sessions o (f.from (begin_all c))) in
        let (m, q) = Session.Session-commit text_discrete c.map s.map in
        let (v, u) = Session.Session-commit text_discrete c.key_versions s.key_versions in
        let (x, w) = Session.Session-commit text_discrete c.expiring s.expiring in
        let back = atomic_ok fn c t a m v x p q u w in cc

  -- An atomic section that throws, whose body is made of the cache's own changes, has put back every
  -- map, byte count, statistic, epoch and frame of the state that it started from, when no key
  -- stood twice in a map of it. Only the version counter, the change sets, the listener's calls and
  -- the clock keep what the body did to them.
  pub atomic_thrown-restored :
      {A : Type 0} {exact : Bool} (fn : Action V A) (c d : Cache V) (e : Error)
      → Follows o exact fn
      → IsDistinctCache c
      → atomic fn c ≡ (err e, d)
      → d ≡ restored c d
  atomic_thrown-restored fn c d e f i h =
      thrown_from fn f c i d e h (fn (begin_all c)).0 (fn (begin_all c)).1 refl
