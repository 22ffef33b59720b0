-- ===== src/Cache/Steps/Relation.antt =====
-- The step relation of the cache, and the rules by which a method's steps are composed.
use mathlib.Core.List
use yasd.Prelude.{ℕ, ◌≡◌, refl, ◌<◌, ◌≤◌, Bool, false, some}
use yasd.Text.{Text, text_discrete}
use yasd.Result.{Error, Result, ok, err}
use yasd.OrderedMap
use yasd.OrderedMap.{OrderedMap}
use yasd.Cache.State.{raise, Entry, Options, Cache, Action, pure, ◌>>=◌}
use yasd.Cache.Core.{max_safe_integer, peek, take_out, put_in, put_last, next_version, prune_one}
use yasd.Cache.Write.{take_old, wipe}
use yasd.Cache.Atomic.{begin_all, pass_expired, Saved, saved}

module _ {V : Type 0} where
  -- Two states that differ in statistics, clock readings, notifications and change sets only.
  pub record SameStore (c d : Cache V) : Type 0 where
    pub map : d.map ≡ c.map
    pub key_versions : d.key_versions ≡ c.key_versions
    pub expiring : d.expiring ≡ c.expiring
    pub bytes : d.bytes ≡ c.bytes
    pub generation : d.generation ≡ c.generation
    pub absent_epoch : d.absent_epoch ≡ c.absent_epoch
    pub outer : List.tail d.expired_frames ≡ List.tail c.expired_frames

  -- `restoreState` once the three maps are rolled back.
  abbrev pub with_saved : Saved → Cache V → Cache V
  with_saved s c = record c {
    bytes = s.bytes;
    hits = s.hits;
    misses = s.misses;
    evictions = s.evictions;
    expiries = s.expiries;
    absent_epoch = s.absent_epoch;
  }

  abbrev pub with_maps :
      OrderedMap Text (Entry V) → OrderedMap Text ℕ → OrderedMap Text ℕ → Cache V → Cache V
  with_maps m v x c = record c { map = m; key_versions = v; expiring = x }

module _ {V : Type 0} (o : Options) where
  -- One change. In an exact step an entry is stored only where the old one has been taken out.
  pub data Step : Bool → Cache V → Cache V → Type 0 where
    counted : {exact : Bool} {c d : Cache V} → SameStore c d → Step exact c d
    removed :
        {exact : Bool} {c : Cache V} (k : Text) (e : Entry V)
        → peek k c ≡ some e
        → Step exact c (take_out k e c)
    replaced :
        {exact : Bool} {c : Cache V} (k : Text) (e : Entry V)
        → e.size ≤ o.max_bytes
        → Step exact c (put_in k e (take_old k (peek k c) c))
    stored :
        {exact : Bool} {c : Cache V} (k : Text) (e : Entry V)
        → exact ≡ false
        → e.size ≤ o.max_bytes
        → Step exact c (put_in k e c)
    retimed :
        {exact : Bool} {c : Cache V} (k : Text) (e e' : Entry V)
        → peek k c ≡ some e
        → e'.size ≡ e.size
        → Step exact c (put_last k e' c)
    versioned :
        {exact : Bool} {c : Cache V} (k : Text)
        → c.generation < max_safe_integer
        → Step exact c (next_version k c)
    pruned :
        {exact : Bool} {c : Cache V} (k : Text)
        → OrderedMap.has text_discrete c.map k ≡ false
        → Step exact c (prune_one k c)
    wiped : {exact : Bool} {c : Cache V} → Step exact c (wipe c)

  -- Sequences of changes and of balanced atomic sections.
  pub data Runs (exact : Bool) : Cache V → Cache V → Type 0 where
    here : {a : Cache V} → Runs exact a a
    next : {a b c : Cache V} → Runs exact a b → Step exact b c → Runs exact a c
    committed :
        {a b c : Cache V} (m : OrderedMap Text (Entry V)) (v x : OrderedMap Text ℕ)
        → Runs exact a b
        → Runs exact (begin_all b) c
        → OrderedMap.commit c.map ≡ some m
        → OrderedMap.commit c.key_versions ≡ some v
        → OrderedMap.commit c.expiring ≡ some x
        → Runs exact a (pass_expired c.expired_frames (with_maps m v x c))
    aborted :
        {a b c : Cache V} (m : OrderedMap Text (Entry V)) (v x : OrderedMap Text ℕ)
        → Runs exact a b
        → Runs exact (begin_all b) c
        → OrderedMap.rollback text_discrete c.map ≡ some m
        → OrderedMap.rollback text_discrete c.key_versions ≡ some v
        → OrderedMap.rollback text_discrete c.expiring ≡ some x
        → Runs exact a (
            with_saved
              (saved b)
              (with_maps m v x (record c { expired_frames = List.tail c.expired_frames })))

  pub Runs-trans :
      {exact : Bool} {a b c : Cache V} → Runs exact a b → Runs exact b c → Runs exact a c
  Runs-trans r here = r
  Runs-trans r (next s t) = next (Runs-trans r s) t
  Runs-trans r (committed m v x s t p q u) = committed m v x (Runs-trans r s) t p q u
  Runs-trans r (aborted m v x s t p q u) = aborted m v x (Runs-trans r s) t p q u

  pub one : {exact : Bool} {a b : Cache V} → Step exact a b → Runs exact a b
  one s = next here s

  -- Every run of the method, whether it returns or throws, is such a sequence.
  pub record Follows {A : Type 0} (exact : Bool) (m : Action V A) : Type 0 where
    pub from : (c : Cache V) → Runs exact c (m c).1

  pub Follows-pure : {exact : Bool} {A : Type 0} (a : A) → Follows exact (pure {V = V} a)
  Follows-pure a = record { from = λ c. here }

  pub Follows-raise :
      {exact : Bool} {A : Type 0} (e : Error) → Follows exact (raise {V = V} {A = A} e)
  Follows-raise e = record { from = λ c. here }

  module _ {exact : Bool} {A B : Type 0} where
    bind_from :
        (f : A → Action V B) (c : Cache V) (p : Result A × Cache V)
        → Runs exact c p.1
        → ((a : A) → p.0 ≡ ok a → Runs exact p.1 (f a p.1).1)
        → Runs exact c (((λ (_ : Cache V). p) >>= f) c).1
    bind_from f c (ok a, d) r s = Runs-trans r (s a refl)
    bind_from f c (err e, d) r s = r

    pub Runs-bind :
        (m : Action V A) (f : A → Action V B) (c : Cache V)
        → Runs exact c (m c).1
        → ((a : A) → (m c).0 ≡ ok a → Runs exact (m c).1 (f a (m c).1).1)
        → Runs exact c ((m >>= f) c).1
    Runs-bind m f c r s = bind_from f c (m c) r s

    pub Follows-bind :
        (m : Action V A) (f : A → Action V B)
        → Follows exact m
        → ((a : A) → Follows exact (f a))
        → Follows exact (m >>= f)
    Follows-bind m f h k = record {
      from = λ c. Runs-bind m f c (h.from c) (λ a e. (k a).from (m c).1);
    }
