-- ===== src/Engine/Serving.antt =====
-- A request in a coherent cluster.
use cacheopt.Base.{
  ℕ, zero, suc, ◌≡◌, refl, sym, ◌∙◌, ap, subst, ◌⊎◌, inl, inr, String, true, false, none, some,
  List, [], ◌∷◌, arith, get_elem?, if◌then◌else◌, dec_str, if_neg,
}
use mathlib.Core.Bool.{false≢true}
use cacheopt.Dict.{Dict, lookup}
use cacheopt.Engine.{admits, set}
use cacheopt.Engine.Coherence.{
  IsSetting, SoundL1, SoundL2, Unpacks, L1Claim, L2Claim, NotBehind, Covers, key_of, tables_of,
  read, has_news, has_event_for,
}
use cacheopt.Memory.{is_member, is_older}
use cacheopt.Planner.{Setting, effective, unpack}
use cacheopt.Planner.Requests.{MayStore}
use cacheopt.Value.{Value, Values, tuple, list, pair}
use cacheopt.Value.Json.{
  to_json, to_jsons, of_json, of_jsons, restore_value, list_to_tuple, rows_to_tuples,
}
use cacheopt.Value.RoundTrip.{through_redis}
use cacheopt.Versions.Counters.{is_behind}
use cacheopt.Versions.{Event}

module _ {A : Type 0} where
  pub get_elem?-set :
      (xs : List A) (i j : ℕ) (v x : A)
      → get_elem? (set xs i v) j ≡ some x
      → ((i ≡ j) × (x ≡ v)) ⊎ (get_elem? xs j ≡ some x)
  unfolding set
  get_elem?-set [] i j v x h = inr h
  get_elem?-set (y ∷ xs) zero zero v x h = inl (refl, cc)
  get_elem?-set (y ∷ xs) zero (suc j) v x h = inr h
  get_elem?-set (y ∷ xs) (suc i) zero v x h = inr h
  get_elem?-set (y ∷ xs) (suc i) (suc j) v x h = elim (get_elem?-set xs i j v x h) [
    | inl (p, q) ↦ inl (ap suc p, q)
    | inr there ↦ inr there
  ]

restored-Unpacks :
    (utf8 : List ℕ → String) (columns rows : Values)
    → Unpacks (through_redis utf8 (pair (tuple columns) (list rows)))
unfolding to_json of_json restore_value list_to_tuple unpack
restored-Unpacks utf8 columns rows = (
  tuple (of_jsons (to_jsons utf8 columns)),
  list (rows_to_tuples (of_jsons (to_jsons utf8 rows))),
  refl,
)

module _ (S : Setting) (ok : IsSetting S) (f : String → ℕ) (d : S.database.State) where
  pub NotBehind-of_is_behind :
      (captured : Dict ℕ) (ts : List String)
      → is_behind S.runtime.redis f captured ts ≡ false
      → NotBehind S f d captured ts
  unfolding is_member
  NotBehind-of_is_behind captured [] h t m = cc
  NotBehind-of_is_behind captured (u ∷ ts) h t m = elim (dec_str t u) [
    | yes p ↦ rw p (ground arith)
    | no p ↦
        NotBehind-of_is_behind captured ts (ground arith) t
          (ground (arith, if_neg (dec_str t u) p true (is_member t ts)))
  ]

  pub read-run :
      (sql : String) (columns rows : Values) (d' : S.database.State)
      → S.database.execute (effective S sql).sql d ≡ some (columns, rows, d')
      → read S sql d ≡ some (columns, rows)
  unfolding read
  read-run sql columns rows d' ran = rw ran refl

  -- Versions that were just read are in step with the counters.
  fresh :
      (captured : Dict ℕ) (tables : List String)
      → ((t : String) → lookup t captured ≡ (if is_member t tables then some (f t) else none))
      → Covers S f d captured tables × NotBehind S f d captured tables
  unfolding is_older
  fresh captured tables read_versions = (
    λ t m. (f t, read_versions t ∙ rw m refl, omega arith),
    λ t m. rw (read_versions t, m) (ground arith),
  )

  SoundL1-of_SoundL2 :
      (inbox : List Event) (captured : Dict ℕ) (v : Value) (q : String)
      → SoundL2 S f d captured v q
      → NotBehind S f d captured (tables_of S q)
      → SoundL1 S f d inbox captured v q
  SoundL1-of_SoundL2 inbox captured v q s level =
      let r = s.current level in
      record {
        unpacks = s.unpacks;
        covers = s.covers;
        warned = λ t m old. absurd (false≢true (sym (level t m) ∙ old));
        current = λ nb. record {
          columns = r.columns;
          rows = r.rows;
          is_read = r.is_read;
          is_value = inr r.is_value;
        };
      }

  module _ (inbox : List Event) (sql : String) (admitted : admits S.sqlglot sql ≡ true) where
    storable :
        (columns rows : Values) (d' : S.database.State) (versions : Dict ℕ) (q : String)
        → S.database.execute (effective S sql).sql d ≡ some (columns, rows, d')
        → ((t : String)
            → lookup t versions ≡ (if is_member t (tables_of S sql) then some (f t) else none))
        → admits S.sqlglot q ≡ true
        → key_of S q ≡ key_of S sql
        → SoundL1 S f d inbox versions (pair (tuple columns) (list rows)) q
          × SoundL2 S f d versions
              (through_redis S.runtime.utf8 (pair (tuple columns) (list rows)))
              q
    unfolding unpack
    storable columns rows d' versions q ran versions_read q_admitted same =
        let tables = ok.key_tables q sql q_admitted admitted same in
        let (covers, level) = fresh versions (tables_of S q) (λ t.
          versions_read t
          ∙ ap (λ (ts : List String). if is_member t ts then some (f t) else none) (sym tables)) in
        let answered =
          ok.key_read q sql d q_admitted admitted same ∙ read-run sql columns rows d' ran in
        (
          record {
            unpacks = (tuple columns, list rows, refl);
            covers = covers;
            warned = λ t m old. absurd (false≢true (sym (level t m) ∙ old));
            current = λ nb. record {
              columns = columns;
              rows = rows;
              is_read = answered;
              is_value = inl refl;
            };
          },
          record {
            unpacks = restored-Unpacks S.runtime.utf8 columns rows;
            covers = covers;
            current = λ nb. record {
              columns = columns;
              rows = rows;
              is_read = answered;
              is_value = refl;
            };
          },
        )

    pub coherent-MayStore : MayStore S (L1Claim S f d inbox) (L2Claim S f d) f sql d
    coherent-MayStore = record {
      storable = λ columns rows d' ran versions versions_read. (
        λ q a same. (storable columns rows d' versions q ran versions_read a same).0,
        λ q a same. (storable columns rows d' versions q ran versions_read a same).1,
      );
      pure = λ columns rows d' ran. ok.select_pure sql columns rows d d' admitted ran;
      promotable = λ captured v p b q a same. SoundL1-of_SoundL2 inbox captured v q (p q a same) (
          subst (λ (ts : List String). NotBehind S f d captured ts)
            (sym (ok.key_tables q sql a admitted same))
            (NotBehind-of_is_behind captured (tables_of S sql) b));
    }

  -- Where no event for the query's tables waits, no table has news.
  pub no_news :
      (tables : List String) (t : String) (captured : Dict ℕ) (inbox : List Event)
      → has_event_for tables inbox ≡ false
      → is_member t tables ≡ true
      → has_news t captured inbox ≡ false
  unfolding has_event_for has_news is_member
  no_news tables t captured [] h m = refl
  no_news tables t captured (e ∷ inbox) h m = elim (dec_str t e.table) [
    | yes p ↦
        let m' : is_member e.table tables ≡ true =
          subst (λ (x : String). is_member x tables ≡ true) p m in
        ground arith
    | no p ↦ ground (arith, no_news tables t captured inbox)
  ]
