-- ===== src/Impl/LeaseMongo/Examples.antt =====
-- The theorems on the lease at a collection of one document in memory.
use dynamic_routes_provision.Base.{
  String, ℕ, ◌≡◌, ◌≢◌, refl, true, false, Option, none, some, [], ◌∷◌, if◌then◌else◌, arith,
}
use dynamic_routes_provision.Core.Result.{Result, ok}
use dynamic_routes_provision.Impl.LeaseMongo.{
  Filter, Update, Upsert, done, duplicate_key, Collection, acquired, try_acquire, timer, cancelled,
  term_begins, term_over, run, begin,
}
use dynamic_routes_provision.Impl.LeaseMongo.Exclusion.{
  Lease, matches, set, upserted, IsCollection, acquire, give_up, elector, calls,
  try_acquire-excludes,
}
use dynamic_routes_provision.Impl.LeaseMongo.Turns.{Sound, run-Sound}

abbrev upsert_doc : Filter → Update → Option Lease → Upsert × Option Lease
upsert_doc f u none = (done, some (upserted u none))
upsert_doc f u (some d) =
    if matches f d then (done, some (upserted u (some d))) else (duplicate_key, some d)

abbrev update_doc : Filter → Update → Option Lease → Result ℕ × Option Lease
update_doc f u none = (ok 0, none)
update_doc f u (some d) = if matches f d then (ok 1, some (set u d)) else (ok 0, some d)

abbrev delete_doc : Filter → Option Lease → Result ℕ × Option Lease
delete_doc f none = (ok 0, none)
delete_doc f (some d) = if matches f d then (ok 1, none) else (ok 0, some d)

abbrev one_document : Collection (Option Lease)
one_document = record {
  find_one_and_upsert = λ id f u w. upsert_doc f u w;
  update_one = λ id f u w. update_doc f u w;
  delete_one = λ id f w. delete_doc f w;
}

upsert_doc-taken :
    (f : Filter) (u : Update) (w : Option Lease) (d : Lease)
    → w ≡ some d
    → matches f d ≡ false
    → ((upsert_doc f u w).0 ≢ done) × ((upsert_doc f u w).1 ≡ w)
upsert_doc-taken f u w d here other = rw (here, other) ((λ e. cc), refl)

upsert_doc-done :
    (f : Filter) (u : Update) (w : Option Lease)
    → (upsert_doc f u w).0 ≡ done
    → (upsert_doc f u w).1 ≡ some (upserted u w)
upsert_doc-done f u none e = refl
upsert_doc-done f u (some d) e = ground arith

one_document-IsCollection : IsCollection one_document
one_document-IsCollection = record {
  doc = λ id w. w;
  upsert_taken = λ id f u w d here other. upsert_doc-taken f u w d here other;
  upsert_done = λ id f u w e. upsert_doc-done f u w e;
  update_doc = λ id f u w d here other. rw (here, other) refl;
  delete_doc = λ id f w d here other. rw (here, other) refl;
}

abbrev first : String × ℕ
first = ("first", 15)

abbrev second : String × ℕ
second = ("second", 15)

-- The second instance tries to acquire the lease and to give it up, then to acquire it again.
try_acquire-excludes_example :
    (try_acquire (elector one_document "leader" second) 110 (
      calls one_document "leader"
        ((second, acquire 105) ∷ (second, give_up) ∷ [])
        (try_acquire (elector one_document "leader" first) 100 none).1)).0
    ≢ ok true
unfolding try_acquire acquired
try_acquire-excludes_example =
    try_acquire-excludes one_document "leader" one_document-IsCollection first 100 none
      ((second, acquire 105) ∷ (second, give_up) ∷ []) second 110 refl
      (((λ e. cc), omega arith), (((λ e. cc), tt), tt)) (λ e. cc) (omega arith)

run-Sound_example : Sound (
    run
      (elector one_document "leader" first)
      (timer 100 ∷ term_begins ∷ timer 105 ∷ cancelled ∷ term_over ∷ [])
      (begin none))
run-Sound_example =
    run-Sound (elector one_document "leader" first)
      (timer 100 ∷ term_begins ∷ timer 105 ∷ cancelled ∷ term_over ∷ []) none
