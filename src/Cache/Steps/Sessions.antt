-- ===== src/Cache/Steps/Sessions.antt =====
-- src/cache.ts: what the changes of a cache do to its three ordered maps.
use mathlib.Core.List
use yasd.Prelude.{
  ℕ, suc, ◌≡◌, refl, sym, ap, ◌∙◌, Bool, Option, none, some, List, [], ◌∷◌, inl, inr, Bool-cases,
  subst,
}
use yasd.Text.{Text, text_discrete}
use yasd.OrderedMap
use yasd.OrderedMap.{OrderedMap}
use yasd.OrderedMap.Session.{Session, Session-trans}
use yasd.Cache.State.{Entry, Options, Cache}
use yasd.Cache.Core.{
  peek, sync_expiring, map_set, map_delete, take_out, put_in, put_last, next_version, prune_one,
}
use yasd.Cache.Write.{take_old, wipe, map_clear}
use yasd.Cache.Atomic.{begin_all, pass_expired}
use yasd.Cache.Steps.Relation.{
  Step, counted, removed, replaced, stored, retimed, versioned, pruned, wiped, Runs, here, next,
  committed, aborted,
}

sync_expiring-Session :
    (k : Text) (x : Option ℕ) (m : OrderedMap Text ℕ)
    → Session text_discrete m (sync_expiring k x m)
unfolding sync_expiring
sync_expiring-Session k none m = Session.after_delete Session.here k
sync_expiring-Session k (some x) m = Session.after_set Session.here k x

module _ {V : Type 0} where
  -- All three maps move by sessions of their own, and the outer frames stay.
  pub record Sessions (c d : Cache V) : Type 0 where
    pub map : Session text_discrete c.map d.map
    pub key_versions : Session text_discrete c.key_versions d.key_versions
    pub expiring : Session text_discrete c.expiring d.expiring
    pub outer : List.tail d.expired_frames ≡ List.tail c.expired_frames

  Sessions-refl : (c : Cache V) → Sessions c c
  Sessions-refl c = record {
    map = Session.here;
    key_versions = Session.here;
    expiring = Session.here;
    outer = refl;
  }

  Sessions-trans : {a b c : Cache V} → Sessions a b → Sessions b c → Sessions a c
  Sessions-trans r s = record {
    map = Session-trans text_discrete r.map s.map;
    key_versions = Session-trans text_discrete r.key_versions s.key_versions;
    expiring = Session-trans text_discrete r.expiring s.expiring;
    outer = s.outer ∙ r.outer;
  }

  map_set-Sessions : (k : Text) (e : Entry V) (c : Cache V) → Sessions c (map_set k e c)
  unfolding map_set
  map_set-Sessions k e c = record {
    map = Session.after_set Session.here k e;
    key_versions = Session.here;
    expiring = sync_expiring-Session k e.expires_at c.expiring;
    outer = refl;
  }

  map_delete-Sessions : (k : Text) (c : Cache V) → Sessions c (map_delete k c)
  unfolding map_delete
  map_delete-Sessions k c = elim (Bool-cases (OrderedMap.delete text_discrete c.map k).1) [
    | inl y ↦ rw y (record {
      map = Session.after_delete Session.here k;
      key_versions = Session.here;
      expiring = sync_expiring-Session k none c.expiring;
      outer = refl;
    })
    | inr n ↦ rw n (Sessions-refl c)
  ]

  map_clear-Sessions : (ks : List Text) (c : Cache V) → Sessions c (map_clear ks c)
  unfolding map_clear
  map_clear-Sessions [] c = Sessions-refl c
  map_clear-Sessions (k ∷ ks) c =
      Sessions-trans (map_delete-Sessions k c) (map_clear-Sessions ks (map_delete k c))

  with_bytes : {c d : Cache V} (n : ℕ) → Sessions c d → Sessions c (record d { bytes = n })
  with_bytes n s = record {
    map = s.map;
    key_versions = s.key_versions;
    expiring = s.expiring;
    outer = s.outer;
  }

  take_out-Sessions : (k : Text) (e : Entry V) (c : Cache V) → Sessions c (take_out k e c)
  unfolding take_out
  take_out-Sessions k e c = with_bytes _ (map_delete-Sessions k c)

  put_in-Sessions : (k : Text) (e : Entry V) (c : Cache V) → Sessions c (put_in k e c)
  unfolding put_in
  put_in-Sessions k e c = with_bytes _ (map_set-Sessions k e c)

  take_old-Sessions : (k : Text) (e : Option (Entry V)) (c : Cache V) → Sessions c (take_old k e c)
  unfolding take_old
  take_old-Sessions k none c = Sessions-refl c
  take_old-Sessions k (some e) c = take_out-Sessions k e c

module _ {V : Type 0} (o : Options) where
  Step-Sessions : {exact : Bool} {c d : Cache V} → Step o exact c d → Sessions c d
  unfolding put_last next_version prune_one wipe
  Step-Sessions {c = c} (counted s) = record {
    map = subst (λ m. Session text_discrete c.map m) (sym s.map) Session.here;
    key_versions =
        subst (λ m. Session text_discrete c.key_versions m) (sym s.key_versions) Session.here;
    expiring = subst (λ m. Session text_discrete c.expiring m) (sym s.expiring) Session.here;
    outer = s.outer;
  }
  Step-Sessions {c = c} (removed k e h) = take_out-Sessions k e c
  Step-Sessions {c = c} (replaced k e h) =
      Sessions-trans (take_old-Sessions k (peek k c) c)
        (put_in-Sessions k e (take_old k (peek k c) c))
  Step-Sessions {c = c} (stored k e h f) = put_in-Sessions k e c
  Step-Sessions {c = c} (retimed k e e' h f) =
      Sessions-trans (map_delete-Sessions k c) (map_set-Sessions k e' (map_delete k c))
  Step-Sessions {c = c} (versioned k h) = record {
    map = Session.here;
    key_versions = Session.after_set Session.here k (suc c.generation);
    expiring = Session.here;
    outer = refl;
  }
  Step-Sessions (pruned k h) = record {
    map = Session.here;
    key_versions = Session.after_delete Session.here k;
    expiring = Session.here;
    outer = refl;
  }
  Step-Sessions {c = c} wiped = with_bytes 0 (map_clear-Sessions (OrderedMap.keys c.map) c)

  passed :
      (fs : List (List Text)) (c : Cache V)
      → ((pass_expired fs c).map ≡ c.map)
        × ((pass_expired fs c).key_versions ≡ c.key_versions)
        × ((pass_expired fs c).expiring ≡ c.expiring)
  unfolding pass_expired
  passed [] c = (refl, refl, refl)
  passed (ks ∷ []) c = (refl, refl, refl)
  passed (ks ∷ f ∷ fs) c = (refl, refl, refl)

  passed_outer :
      (fs : List (List Text)) (c : Cache V)
      → c.expired_frames ≡ fs
      → List.tail (pass_expired fs c).expired_frames ≡ List.tail (List.tail fs)
  unfolding pass_expired
  passed_outer [] c e = rw e
  passed_outer (ks ∷ []) c e = refl
  passed_outer (ks ∷ f ∷ fs) c e = refl

  pub Runs-Sessions : {exact : Bool} {a c : Cache V} → Runs o exact a c → Sessions a c
  unfolding begin_all
  Runs-Sessions {a = a} here = Sessions-refl a
  Runs-Sessions (next r s) = Sessions-trans (Runs-Sessions r) (Step-Sessions s)
  Runs-Sessions {a = a} (committed {c = c} m v x s t p q u) =
      let r = Runs-Sessions s in
      let i = Runs-Sessions t in
      let fs = c.expired_frames in
      let d = record c { map = m; key_versions = v; expiring = x } in
      record {
        map =
            subst (λ y. Session text_discrete a.map y) (sym (passed fs d).0)
              (Session.committed r.map i.map p);
        key_versions =
            subst (λ y. Session text_discrete a.key_versions y) (sym (passed fs d).1)
              (Session.committed r.key_versions i.key_versions q);
        expiring =
            subst (λ y. Session text_discrete a.expiring y) (sym (passed fs d).2)
              (Session.committed r.expiring i.expiring u);
        outer = passed_outer fs d refl ∙ (ap List.tail i.outer ∙ r.outer);
      }
  Runs-Sessions (aborted m v x s t p q u) =
      let r = Runs-Sessions s in
      let i = Runs-Sessions t in
      record {
        map = Session.rolled_back r.map i.map p;
        key_versions = Session.rolled_back r.key_versions i.key_versions q;
        expiring = Session.rolled_back r.expiring i.expiring u;
        outer = ap List.tail i.outer ∙ r.outer;
      }
