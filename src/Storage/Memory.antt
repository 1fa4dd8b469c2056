-- ===== src/Storage/Memory.antt =====
-- A store in memory that never fails: it shows that the laws of `Storage` can hold, and runs the tests.
-- Its state is the rows written, the newest first; a scan sorts what it selects.
use yasdb.Prelude.{
  true, ◌≡◌, refl, ap, sym, subst, ◌∙◌, Option, none, some, List, [], ◌∷◌, if◌then◌else◌, arith, ok,
  err, Err, engine, Bool-cases, inl, inr,
}
use yasdb.Prelude.Bytes.{Bytes, bytes_eq, lex_lt, bytes_eq→eq, bytes_eq_iff, lex_lt_total}
use yasdb.Keys.Order.{in_range}
use yasdb.Storage.{Op, Storage, apply_op, apply_ops, IsAscending, row_value}

abbrev pub Rows : Type 0
Rows = List (Bytes × Bytes)

unfoldable pub delete_row : Bytes → Rows → Rows
delete_row k [] = []
delete_row k ((j, w) ∷ rows) =
    let rest = delete_row k rows in if bytes_eq k j then rest else (j, w) ∷ rest

unfoldable pub run_op : Op → Rows → Rows
run_op op rows = if op.del then delete_row op.key rows else (op.key, op.val) ∷ rows

unfoldable pub run_ops : List Op → Rows → Rows
unfolding run_op delete_row
run_ops [] rows = rows
run_ops (op ∷ ops) rows = run_ops ops (run_op op rows)

-- A row into ascending rows.
unfoldable pub insert_row : Bytes → Bytes → Rows → Rows
insert_row k v [] = (k, v) ∷ []
insert_row k v ((j, w) ∷ rows) =
    let rest = insert_row k v rows in
    if bytes_eq k j
    then (k, v) ∷ rows
    else (if lex_lt k j then (k, v) ∷ (j, w) ∷ rows else (j, w) ∷ rest)

unfoldable pub select : Bytes → Option Bytes → Rows → Rows
unfolding insert_row
select start end [] = []
select start end ((k, v) ∷ rows) =
    let rest = select start end rows in if in_range start end k then insert_row k v rest else rest

-- The keys of rows are above j.
abbrev HeadAbove : Bytes → Rows → Type 0
HeadAbove j [] = Unit
HeadAbove j ((k, v) ∷ rows) = lex_lt j k ≡ true

IsAscending-cons :
    (j w : Bytes) (rows : Rows) → HeadAbove j rows → IsAscending rows → IsAscending ((j, w) ∷ rows)
IsAscending-cons j w [] h a = tt
IsAscending-cons j w ((k, v) ∷ rows) h a = (h, a)

IsAscending-tail :
    (j w : Bytes) (rows : Rows) → IsAscending ((j, w) ∷ rows) → HeadAbove j rows × IsAscending rows
IsAscending-tail j w [] a = (tt, tt)
IsAscending-tail j w ((k, v) ∷ rows) a = a

head-insert_row :
    (j k v : Bytes) (rows : Rows)
    → lex_lt j k ≡ true
    → HeadAbove j rows
    → HeadAbove j (insert_row k v rows)
unfolding insert_row
head-insert_row j k v [] h a = h
head-insert_row j k v ((i, w) ∷ rows) h a = elim (Bool-cases (bytes_eq k i)) [
  | inl same ↦ rw same h
  | inr other ↦
      rw other (elim (Bool-cases (lex_lt k i)) [ inl below ↦ rw below h | inr above ↦ rw above a ])
]

insert_row-IsAscending :
    (k v : Bytes) (rows : Rows) → IsAscending rows → IsAscending (insert_row k v rows)
unfolding insert_row
insert_row-IsAscending k v [] a = tt
insert_row-IsAscending k v ((j, w) ∷ rows) a =
    let (h, t) = IsAscending-tail j w rows a in
    elim (Bool-cases (bytes_eq k j)) [
      | inl same ↦ rw same (
          IsAscending-cons k v rows (subst (λ i. HeadAbove i rows) (sym (bytes_eq→eq k j same)) h)
            t)
      | inr other ↦ rw other (elim (Bool-cases (lex_lt k j)) [
        | inl below ↦ rw below (below, a)
        | inr above ↦ rw above (
            IsAscending-cons j w (insert_row k v rows)
              (head-insert_row j k v rows (lex_lt_total k j other above) h)
              (insert_row-IsAscending k v rows t))
      ])
    ]

select-IsAscending :
    (start : Bytes) (end : Option Bytes) (rows : Rows) → IsAscending (select start end rows)
unfolding select
select-IsAscending start end [] = tt
select-IsAscending start end ((k, v) ∷ rows) = elim (Bool-cases (in_range start end k)) [
  | inl inside ↦
      rw inside
        (insert_row-IsAscending k v (select start end rows) (select-IsAscending start end rows))
  | inr outside ↦ rw outside (select-IsAscending start end rows)
]

insert_row-value :
    (k v j : Bytes) (rows : Rows)
    → row_value j (insert_row k v rows) ≡ (if bytes_eq k j then some v else row_value j rows)
unfolding insert_row
insert_row-value k v j [] = refl
insert_row-value k v j ((i, w) ∷ rows) =
    ground
      (arith, insert_row-value k v j rows, bytes_eq_iff k i, bytes_eq_iff k j, bytes_eq_iff i j)

select-value :
    (start : Bytes) (end : Option Bytes) (k : Bytes) (rows : Rows)
    → row_value k (select start end rows)
      ≡ (if in_range start end k then row_value k rows else none)
unfolding select
select-value start end k [] = ground arith
select-value start end k ((j, v) ∷ rows) = elim (Bool-cases (bytes_eq j k)) [
  | inl same ↦ ground (
    arith,
    select-value start end k rows,
    bytes_eq→eq j k,
    insert_row-value j v k (select start end rows),
    ap (in_range start end) (bytes_eq→eq j k same),
  )
  | inr other ↦
      ground (arith, select-value start end k rows, insert_row-value j v k (select start end rows))
]

delete_row-value :
    (k j : Bytes) (rows : Rows)
    → row_value j (delete_row k rows) ≡ (if bytes_eq k j then none else row_value j rows)
unfolding delete_row
delete_row-value k j [] = ground arith
delete_row-value k j ((i, w) ∷ rows) =
    ground (arith, delete_row-value k j rows, bytes_eq_iff k i, bytes_eq_iff k j, bytes_eq_iff i j)

run_op-value :
    (op : Op) (k : Bytes) (rows : Rows)
    → row_value k (run_op op rows) ≡ apply_op op (λ j. row_value j rows) k
unfolding run_op
run_op-value op k rows = ground (arith, delete_row-value op.key k rows)

pub run_ops-value :
    (ops : List Op) (k : Bytes) (rows : Rows)
    → row_value k (run_ops ops rows) ≡ apply_ops ops (λ j. row_value j rows) k
unfolding run_ops apply_ops
run_ops-value [] k rows = refl
run_ops-value (op ∷ ops) k rows =
    run_ops-value ops k (run_op op rows)
    ∙ ap (λ view. apply_ops ops view k) (λ i j. run_op-value op j rows i)

pub scan_sorted :
    (start : Bytes) (end : Option Bytes) (d : Rows) {rows : Rows}
    → ok (select start end d) ≡ ok rows
    → IsAscending rows
scan_sorted start end d {rows} h =
    let e : select start end d ≡ rows = cc in subst IsAscending e (select-IsAscending start end d)

pub scan_values :
    (start : Bytes) (end : Option Bytes) (k : Bytes) (d : Rows) {rows : Rows}
    → ok (select start end d) ≡ ok rows
    → row_value k rows ≡ (if in_range start end k then row_value k d else none)
scan_values start end k d {rows} h =
    let e : select start end d ≡ rows = cc in
    subst (λ r. row_value k r ≡ (if in_range start end k then row_value k d else none)) e
      (select-value start end k d)

pub got_value :
    (d : Rows) (k : Bytes) {o : Option Bytes} → ok (row_value k d) ≡ ok o → o ≡ row_value k d
got_value d k h = cc

pub never_fails {ℓ κ} : {A : Type ℓ} {B : Type κ} {a : A} {e : Err} → ok a ≡ err e → B
never_fails h = absurd (cc)

pub never_succeeds {ℓ κ} : {A : Type ℓ} {B : Type κ} {a : A} {e : Err} → err e ≡ ok a → B
never_succeeds h = absurd (cc)

abbrev pub memory : Storage
memory = record {
  Db = Rows;
  view = λ d k. row_value k d;
  get = λ d k. ok (row_value k d);
  commit = λ d ops await. (ok tt, run_ops ops d);
  commit_async = λ d ops. (ok 1, run_ops ops d);
  scan = λ d start end. ok (select start end d);
  get-view = got_value;
  commit-ok = λ d ops await k h. run_ops-value ops k d;
  commit-err = λ d ops await h. never_fails h;
  commit_async-ok = λ d ops k h. run_ops-value ops k d;
  commit_async-err = λ d ops h. never_fails h;
  scan-ascending = λ d start end h. scan_sorted start end d h;
  scan-view = λ d start end k h. scan_values start end k d h;
}

-- The same store with commits that all fail, and change nothing.
abbrev pub refusing : Storage
refusing = record memory {
  commit = λ d ops await. (err (engine 1), d);
  commit-ok = λ d ops await k h. never_succeeds h;
  commit-err = λ d ops await h. inl (λ k. refl);
  commit_async = λ d ops. (err (engine 1), d);
  commit_async-ok = λ d ops k h. never_succeeds h;
  commit_async-err = λ d ops h. inl (λ k. refl);
}

-- The same store with reads that all fail.
abbrev pub unreadable : Storage
unreadable = record memory { get = λ d k. err (engine 2); get-view = λ d k h. never_succeeds h }
