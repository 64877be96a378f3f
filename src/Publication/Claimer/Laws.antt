-- ===== src/Publication/Claimer/Laws.antt =====
-- The claimer against one row: every operation is a compare-and-swap on the row of its key.
use work_copilot.Base.{
  ℕ, String, Bool, true, false, Option, none, some, List, [], ◌∷◌, ◌≡◌, ◌≢◌, refl, inl, inr, arith,
  if◌then◌else◌, length, eqb, filter, update_where, at, count_some, row, Unique, row-update,
  update-Unique, filter-at, eq_iff, Bool-cases, Option-cases, length-map, head?, map, ◌∙◌,
  update-idle,
}
use work_copilot.Publication.Types.{PublicationStep}
use work_copilot.Publication.Claimer.{
  StepClaim, claimed, unclaimed, Draw, step_id, start, lease_end, is_claimable, is_interrupted,
  claim_where, claim, update_one, answer_from, or_reclaim,
}

-- One row, or no row at all, swapped if it meets the condition.
abbrev pub swap :
    (PublicationStep → Bool)
    → (PublicationStep → PublicationStep)
    → Option PublicationStep
    → Bool × Option PublicationStep
swap c set none = (false, none)
swap c set (some s) = if c s then (true, some (set s)) else (false, some s)

-- What the rows become, seen key by key.
pub record Sets (i : String) (o : Option PublicationStep) (rows rows' : List PublicationStep)
    : Type 0 where
  pub here : row step_id i rows' ≡ o
  pub elsewhere : (j : String) → i ≢ j → row step_id j rows' ≡ row step_id j rows
  pub unique : Unique step_id rows'

module _ (i : String) (c : PublicationStep → Bool) (set : PublicationStep → PublicationStep)
    (keeps : (s : PublicationStep) → step_id (set s) ≡ step_id s) (rows : List PublicationStep)
    (u : Unique step_id rows) where
  pub update-Sets :
      Sets i (swap c set (row step_id i rows)).1 rows (update_where (at step_id i c) set rows)
  update-Sets = record {
    here = ground (
      arith,
      row-update step_id set keeps i i c rows,
      eq_iff i i,
      Option-cases (row step_id i rows),
    );
    elsewhere = λ j n. ground (arith, row-update step_id set keeps i j c rows, eq_iff i j);
    unique = update-Unique step_id set keeps (at step_id i c) rows u;
  }

  pub affected-swap :
      eqb (length (filter (at step_id i c) rows)) 1 ≡ (swap c set (row step_id i rows)).0
  affected-swap = ground (arith, filter-at step_id i c rows u, Option-cases (row step_id i rows))

  -- One conditional update is a compare-and-swap on one row.
  pub update_one-swap :
      let (done, rows') = update_one i c set rows in
      (done ≡ (swap c set (row step_id i rows)).0)
      × Sets i (swap c set (row step_id i rows)).1 rows rows'
  update_one-swap = (affected-swap, update-Sets)

-- A claim of one row, or of no row at all.
abbrev pub claim_row : Draw → ℕ → Draw → Option PublicationStep → StepClaim × Option PublicationStep
claim_row first now second none = (unclaimed, none)
claim_row first now second (some s) =
    if is_claimable s
    then (claimed first.token (lease_end first.now) false, some (start first s))
    else if is_interrupted now s
    then (claimed second.token (lease_end second.now) true, some (start second s))
    else (unclaimed, some s)

-- Whatever row the update returned, the answer has the drawn token and lease.
answer-start :
    (d : Draw) (b : Bool) (l : List PublicationStep)
    → answer_from d b (head? (map (start d) l)) ≡ claimed d.token (lease_end d.now) b
answer-start d b [] = refl
answer-start d b (s ∷ l) = ground arith

pub claim_where-swap :
    (i : String) (c : PublicationStep → Bool) (b : Bool) (d : Draw) (rows : List PublicationStep)
    → Unique step_id rows
    → (claim_where i c b d rows).0 ≡ (
        if (swap c (start d) (row step_id i rows)).0
        then claimed d.token (lease_end d.now) b
        else unclaimed)
unfolding claim_where
claim_where-swap i c b d rows u =
    rw (length-map (start d) (filter (at step_id i c) rows))
      (rw (affected-swap i c (start d) (λ s. refl) rows u) (rw answer-start refl))

claim_where-Sets :
    (i : String) (c : PublicationStep → Bool) (b : Bool) (d : Draw) (rows : List PublicationStep)
    → Unique step_id rows
    → Sets i (swap c (start d) (row step_id i rows)).1 rows (claim_where i c b d rows).1
unfolding claim_where
claim_where-Sets i c b d rows u = update-Sets i c (start d) (λ s. refl) rows u

Sets-trans :
    {i : String} {o o' : Option PublicationStep} {rows rows' rows'' : List PublicationStep}
    → Sets i o rows rows'
    → Sets i o' rows' rows''
    → Sets i o' rows rows''
Sets-trans a b = record {
  here = b.here;
  elsewhere = λ j n. b.elsewhere j n ∙ a.elsewhere j n;
  unique = b.unique;
}

or_reclaim_claimed :
    (p : StepClaim × List PublicationStep)
    (next : List PublicationStep → StepClaim × List PublicationStep) {t : String} {l : ℕ} {b : Bool}
    → p.0 ≡ claimed t l b
    → or_reclaim p next ≡ p
or_reclaim_claimed (claimed t l b, rows) next e = refl
or_reclaim_claimed (unclaimed, rows) next e = cc

or_reclaim_unclaimed :
    (p : StepClaim × List PublicationStep)
    (next : List PublicationStep → StepClaim × List PublicationStep)
    → p.0 ≡ unclaimed
    → or_reclaim p next ≡ next p.1
or_reclaim_unclaimed (claimed t l b, rows) next e = cc
or_reclaim_unclaimed (unclaimed, rows) next e = refl

-- The answer and the new row of a claim, against one row.
abbrev pub ClaimsAs :
    String
    → StepClaim × Option PublicationStep
    → List PublicationStep
    → StepClaim × List PublicationStep
    → Type 0
ClaimsAs i (answer, o) rows (answer', rows') = (answer' ≡ answer) × Sets i o rows rows'

module _ (i : String) (c : PublicationStep → Bool) (b : Bool) (d : Draw)
    (rows : List PublicationStep) (u : Unique step_id rows) where
  pub claim_where_hit :
      (s : PublicationStep)
      → row step_id i rows ≡ some s
      → c s ≡ true
      → ClaimsAs i
          (claimed d.token (lease_end d.now) b, some (start d s))
          rows
          (claim_where i c b d rows)
  claim_where_hit s e h =
      let swapped : swap c (start d) (row step_id i rows) ≡ (true, some (start d s)) = rw (e, h) in
      (
        rw swapped at (claim_where-swap i c b d rows u),
        rw swapped at (claim_where-Sets i c b d rows u),
      )

  pub claim_where_miss :
      (o : Option PublicationStep)
      → row step_id i rows ≡ o
      → count_some c o ≡ 0
      → ClaimsAs i (unclaimed, o) rows (claim_where i c b d rows)
  claim_where_miss o e h =
      let swapped : swap c (start d) (row step_id i rows) ≡ (false, o) = rw e (ground arith) in
      (
        rw swapped at (claim_where-swap i c b d rows u),
        rw swapped at (claim_where-Sets i c b d rows u),
      )

module _ (i : String) (first : Draw) (now : ℕ) (second : Draw) (rows : List PublicationStep)
    (u : Unique step_id rows) where
  clean : StepClaim × List PublicationStep
  clean = claim_where i is_claimable false first rows

  again : List PublicationStep → StepClaim × List PublicationStep
  again = claim_where i (is_interrupted now) true second

  -- The first update took nothing: the second one decides.
  second_round :
      (o : Option PublicationStep) (p : StepClaim × Option PublicationStep)
      → ClaimsAs i (unclaimed, o) rows clean
      → ClaimsAs i p clean.1 (again clean.1)
      → ClaimsAs i p rows (claim i first now second rows)
  unfolding claim clean again
  second_round o p (e, sets) (e', sets') =
      rw (or_reclaim_unclaimed clean again e) (e', Sets-trans sets sets')

  claim_clean :
      (s : PublicationStep)
      → row step_id i rows ≡ some s
      → is_claimable s ≡ true
      → ClaimsAs i
          (claimed first.token (lease_end first.now) false, some (start first s))
          rows
          (claim i first now second rows)
  unfolding claim clean again
  claim_clean s e h =
      let r = claim_where_hit i is_claimable false first rows u s e h in
      rw (or_reclaim_claimed clean again r.0) r

  claim-row_present :
      (s : PublicationStep)
      → row step_id i rows ≡ some s
      → ClaimsAs i (claim_row first now second (some s)) rows (claim i first now second rows)
  unfolding clean again
  claim-row_present s e = elim (Bool-cases (is_claimable s)) [
    | inl hit ↦ rw hit (claim_clean s e hit)
    | inr miss ↦
        let r = claim_where_miss i is_claimable false first rows u (some s) e (rw miss) in
        elim (Bool-cases (is_interrupted now s)) [
          | inl late ↦
              rw (miss, late)
                (second_round (some s) _ r (
                  claim_where_hit i (is_interrupted now) true second clean.1 r.1.unique s r.1.here
                    late))
          | inr busy ↦
              rw (miss, busy)
                (second_round (some s) _ r (
                  claim_where_miss i (is_interrupted now) true second clean.1 r.1.unique (some s)
                    r.1.here (rw busy)))
        ]
  ]

  -- Where no two rows share a key, a claim is one compare-and-swap of the row: on a row that is
  -- pending or failed, else on a row that is running with a lease that ran out; every other row
  -- stays.
  pub claim-row :
      ClaimsAs i
        (claim_row first now second (row step_id i rows))
        rows
        (claim i first now second rows)
  unfolding clean again
  claim-row = elim (Option-cases (row step_id i rows)) [
    | inl e ↦
        let r = claim_where_miss i is_claimable false first rows u none e refl in
        rw e (
          second_round none _ r (
            claim_where_miss i (is_interrupted now) true second clean.1 r.1.unique none r.1.here
              refl))
    | inr (s, e) ↦ rw e (claim-row_present s e)
  ]

-- An update whose condition the row of the key does not meet is refused and writes nothing.
pub update_one-idle :
    (i : String) (c : PublicationStep → Bool) (set : PublicationStep → PublicationStep)
    (rows : List PublicationStep)
    → Unique step_id rows
    → count_some c (row step_id i rows) ≡ 0
    → update_one i c set rows ≡ (false, rows)
update_one-idle i c set rows u h =
    let none_hit : length (filter (at step_id i c) rows) ≡ 0 = filter-at step_id i c rows u ∙ h in
    rw (none_hit, update-idle (at step_id i c) set rows none_hit)
