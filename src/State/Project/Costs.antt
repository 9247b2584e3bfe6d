-- ===== src/State/Project/Costs.antt =====
-- The cost accounting of a requirement (StoryCostSummaryByReq, internal/state/sqlite.go).
use vortex_dispatch.Prelude.{
  Bool, Dict, List, String, [], arith, assign, false, if◌then◌else◌, refl, str_eq, true, value, ℕ,
  ◌+◌, ◌∷◌, ◌≡◌,
}
use vortex_dispatch.State.Store.{Store, StoryCost}

pub record StageCost : Type 0 where
  pub input_tokens : ℕ
  pub output_tokens : ℕ
  pub est_usd : ℕ

abbrev pub no_cost : StageCost
no_cost = record { input_tokens = 0; output_tokens = 0; est_usd = 0 }

pub record CostSummary : Type 0 where
  pub req_id : String
  pub total_input_tokens : ℕ
  pub total_output_tokens : ℕ
  pub total_est_usd : ℕ
  pub by_stage : Dict StageCost

abbrev pub add_cost : StoryCost → StageCost → StageCost
add_cost r c = record {
  input_tokens = c.input_tokens + r.input_tokens;
  output_tokens = c.output_tokens + r.output_tokens;
  est_usd = c.est_usd + r.est_usd;
}

-- The body of the loop over the rows.
unfoldable pub add_row : StoryCost → CostSummary → CostSummary
add_row r sum = record sum {
  total_input_tokens = sum.total_input_tokens + r.input_tokens;
  total_output_tokens = sum.total_output_tokens + r.output_tokens;
  total_est_usd = sum.total_est_usd + r.est_usd;
  by_stage = assign r.stage (add_cost r (value no_cost sum.by_stage r.stage)) sum.by_stage;
}

-- The rows of `WHERE req_id = ?`, in the order of the table.
unfoldable pub add_rows : String → List StoryCost → CostSummary → CostSummary
add_rows req [] sum = sum
add_rows req (r ∷ rs) sum = add_rows req rs (if str_eq r.req_id req then add_row r sum else sum)

unfoldable pub story_cost_summary_by_req : String → Store → CostSummary
story_cost_summary_by_req req s = add_rows req s.story_costs (record {
  req_id = req;
  total_input_tokens = 0;
  total_output_tokens = 0;
  total_est_usd = 0;
  by_stage = [];
})

-- A figure over all stages.
abbrev pub sum_stages : (StageCost → ℕ) → Dict StageCost → ℕ
sum_stages f [] = 0
sum_stages f ((stage, c) ∷ m) = f c + sum_stages f m

-- What a requirement was charged, row by row.
abbrev pub charged : (StoryCost → ℕ) → String → List StoryCost → ℕ
charged f req [] = 0
charged f req (r ∷ rs) = (if str_eq r.req_id req then f r else 0) + charged f req rs

sum_stages-assign :
    (f : StageCost → ℕ) (k : String) (c : StageCost) (m : Dict StageCost)
    → f no_cost ≡ 0
    → sum_stages f (assign k c m) + f (value no_cost m k) ≡ sum_stages f m + f c
unfolding assign
sum_stages-assign f k c [] h = omega arith
sum_stages-assign f k c ((j, d) ∷ m) h = ground (arith, h, sum_stages-assign f k c m h)

-- The totals agree with the stages, and grow by what the rows charge.
pub record IsBalanced (sum : CostSummary) : Type 0 where
  pub input : sum.total_input_tokens ≡ sum_stages (λ c. c.input_tokens) sum.by_stage
  pub output : sum.total_output_tokens ≡ sum_stages (λ c. c.output_tokens) sum.by_stage

add_row-IsBalanced :
    (r : StoryCost) (sum : CostSummary) → IsBalanced sum → IsBalanced (add_row r sum)
unfolding add_row
add_row-IsBalanced r sum b =
    let c = add_cost r (value no_cost sum.by_stage r.stage) in
    record {
      input =
          omega
            (arith, b.input, sum_stages-assign (λ x. x.input_tokens) r.stage c sum.by_stage refl);
      output =
          omega
            (arith, b.output, sum_stages-assign (λ x. x.output_tokens) r.stage c sum.by_stage refl);
    }

add_rows-IsBalanced :
    (req : String) (rs : List StoryCost) (sum : CostSummary)
    → IsBalanced sum
    → IsBalanced (add_rows req rs sum)
unfolding add_rows
add_rows-IsBalanced req [] sum b = b
add_rows-IsBalanced req (r ∷ rs) sum b = add_rows-IsBalanced req rs _ (one (str_eq r.req_id req))
  where
    one : (t : Bool) → IsBalanced (if t then add_row r sum else sum)
    one true = add_row-IsBalanced r sum b
    one false = b

add_rows-total :
    (req : String) (rs : List StoryCost) (sum : CostSummary)
    → ((add_rows req rs sum).total_input_tokens
        ≡ sum.total_input_tokens + charged (λ r. r.input_tokens) req rs)
      × ((add_rows req rs sum).total_output_tokens
          ≡ sum.total_output_tokens + charged (λ r. r.output_tokens) req rs)
unfolding add_rows add_row
add_rows-total req [] sum = omega arith
add_rows-total req (r ∷ rs) sum =
    ground (arith, add_rows-total req rs (if str_eq r.req_id req then add_row r sum else sum))

-- The summary of a requirement charges exactly the tokens of its rows, and its two token totals
-- are the sums over the stages.
pub story_cost_summary_exact :
    (req : String) (s : Store)
    → let sum = story_cost_summary_by_req req s in
      IsBalanced sum
      × (sum.total_input_tokens ≡ charged (λ r. r.input_tokens) req s.story_costs)
      × (sum.total_output_tokens ≡ charged (λ r. r.output_tokens) req s.story_costs)
unfolding story_cost_summary_by_req
story_cost_summary_exact req s =
    let start : CostSummary = record {
      req_id = req;
      total_input_tokens = 0;
      total_output_tokens = 0;
      total_est_usd = 0;
      by_stage = [];
    } in
    let t = add_rows-total req s.story_costs start in
    (
      add_rows-IsBalanced req s.story_costs start (record { input = refl; output = refl }),
      omega arith,
      omega arith,
    )
