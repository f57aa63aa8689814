-- ===== src/Rollouts/Feedback/Pointwise.antt =====
-- The feedback of environments that treat each sample alone.
use mathlib.Core.Path.{fun_ext}
use nemo_rl_submission.Prelude.{
  ℕ, ◌≡◌, refl, sym, ◌∙◌, ap, Option, some, List, [], map, flatten, arith, length, enumerate_from,
  All, All-map, All-of_map, range, sum_by, sum_by-flatten, sum_by-map, sum_by-enumerate, SameItems,
  sort, sort-SameItems, All-sort, sort-IsAscending, by_key, Result, ok, index, length-map,
}
use nemo_rl_submission.Prelude.Text.{Text}
use nemo_rl_submission.Batching.Batch.Places.{range_from_unique}
use nemo_rl_submission.Batching.Batch.Reorder.{each-ok}
use nemo_rl_submission.Rollouts.Feedback.{
  EnvMessage, EnvironmentReturn, Reply, Row, Env, get_keys_from_message_log, task_groups, reply_at,
  indexed_reply, group_replies, call_env, find_env, calculate_rewards,
}
use nemo_rl_submission.Rollouts.Feedback.Groups.{
  index-map, in_order, enumerate_holds, map-enumerate, each-map, map-map, zip-map, All-flatten,
  OfTask, task_groups-OfTask, sum_by-task_groups, all,
}

-- An environment that treats each sample alone: what it returns for a sample does not depend on the
-- others of its group.
pub record ActsAlone {Info Reward : Type 0} (step : Env Info Reward)
    (reply : List EnvMessage → Info → Reply Info Reward) : Type 0 where
  pub result : List (List EnvMessage × Info) → EnvironmentReturn Info Reward
  pub returns :
      (items : List (List EnvMessage × Info))
      → step
          (map (λ (e : List EnvMessage × Info). e.0) items)
          (map (λ (e : List EnvMessage × Info). e.1) items)
        ≡ ok (result items)
  pub replies :
      (items : List (List EnvMessage × Info)) (i : ℕ) (log : List EnvMessage) (info : Info)
      → index items i ≡ ok (log, info)
      → reply_at (result items) i ≡ ok (reply log info)

module _ {Info Reward : Type 0} (task_to_env : Text → Option (Env Info Reward))
    (envs : Text → Env Info Reward) (reply : Text → List EnvMessage → Info → Reply Info Reward)
    (alone : (name : Text) → ActsAlone (envs name) (reply name)) where
  abbrev pub reply_to : Row Info → Reply Info Reward
  reply_to row = reply row.task_name (get_keys_from_message_log row.message_log) row.extra_env_info

  abbrev K : Text → Type 0
  K name = task_to_env name ≡ some (envs name)

  abbrev item_of : Row Info × ℕ → List EnvMessage × Info
  item_of (row, i) = (get_keys_from_message_log row.message_log, row.extra_env_info)

  abbrev result_of : Text × List (Row Info × ℕ) → EnvironmentReturn Info Reward
  result_of (name, group) = (alone name).result (map item_of group)

  call_env-alone :
      (name : Text) (group : List (Row Info × ℕ))
      → call_env (envs name, group) ≡ ok (result_of (name, group))
  unfolding call_env
  call_env-alone name group =
      rw
        (
          sym (map-map (λ (e : List EnvMessage × Info). e.0) item_of group),
          sym (map-map (λ (e : List EnvMessage × Info). e.1) item_of group),
        )
        ((alone name).returns (map item_of group))

  group_replies-alone :
      (name : Text) (group : List (Row Info × ℕ))
      → All (λ (e : Row Info × ℕ). e.0.task_name ≡ name) group
      → group_replies (result_of (name, group)) group
        ≡ ok (map (λ (e : Row Info × ℕ). (reply_to e.0, e.1)) group)
  unfolding group_replies indexed_reply
  group_replies-alone name group h =
      each-ok _ (λ (e : (Row Info × ℕ) × ℕ). (reply_to e.0.0, e.0.1)) (enumerate_from 0 group) one
      ∙ ap ok (map-enumerate (λ (e : Row Info × ℕ). (reply_to e.0, e.1)) 0 group)
    where
      one :
          All
            (λ (e : (Row Info × ℕ) × ℕ).
              indexed_reply (result_of (name, group)) e ≡ ok (reply_to e.0.0, e.0.1))
            (enumerate_from 0 group)
      one =
          All-map
            (λ (e : (Row Info × ℕ) × ℕ) known.
              rw
                (
                  (alone name).replies (map item_of group) e.1 _ _
                      (index-map item_of group e.1 e.0 known.0),
                  known.1,
                )
                refl)
            (enumerate_from 0 group)
            (enumerate_holds (λ (e : Row Info × ℕ). e.0.task_name ≡ name) [] group h)

  -- All replies, group after group.
  abbrev gathered : List (Text × List (Row Info × ℕ)) → List (Reply Info Reward × ℕ)
  gathered groups = flatten (
      map (λ (g : Text × List (Row Info × ℕ)). map (λ (e : Row Info × ℕ). (reply_to e.0, e.1)) g.1)
        groups)

  gathered-places :
      (rows : List (Row Info))
      → SameItems
          (map
            (λ (e : Reply Info Reward × ℕ). e.1)
            (gathered (task_groups (enumerate_from 0 rows) [])))
          (range (length rows))
  gathered-places rows w =
      let groups = task_groups (enumerate_from 0 rows) [] in
      let place : Reply Info Reward × ℕ → ℕ = λ e. w e.1 in
      sum_by-map w (λ (e : Reply Info Reward × ℕ). e.1) (gathered groups)
      ∙ sum_by-flatten place (
          map
            (λ (g : Text × List (Row Info × ℕ)).
              map (λ (e : Row Info × ℕ). (reply_to e.0, e.1)) g.1)
            groups)
      ∙ sum_by-map (sum_by place)
          (λ (g : Text × List (Row Info × ℕ)). map (λ (e : Row Info × ℕ). (reply_to e.0, e.1)) g.1)
          groups
      ∙ ap (λ f. sum_by f groups)
          (fun_ext (λ (g : Text × List (Row Info × ℕ)).
            sum_by-map place (λ (e : Row Info × ℕ). (reply_to e.0, e.1)) g.1))
      ∙ sum_by-task_groups (λ (e : Row Info × ℕ). w e.1) (enumerate_from 0 rows) []
      ∙ omega (arith, sum_by-enumerate w 0 rows)

  gathered-found :
      (rows : List (Row Info)) (groups : List (Text × List (Row Info × ℕ)))
      → All (OfTask K rows) groups
      → All
          (λ (e : Reply Info Reward × ℕ). index (map reply_to rows) e.1 ≡ ok e.0)
          (gathered groups)
  gathered-found rows groups h =
      All-flatten _
        (map
          (λ (g : Text × List (Row Info × ℕ)). map (λ (e : Row Info × ℕ). (reply_to e.0, e.1)) g.1)
          groups)
        (All-of_map _
          (λ (g : Text × List (Row Info × ℕ)). map (λ (e : Row Info × ℕ). (reply_to e.0, e.1)) g.1)
          groups
          (All-map
            (λ (g : Text × List (Row Info × ℕ)) k.
              All-of_map _ (λ (e : Row Info × ℕ). (reply_to e.0, e.1)) g.1
                (All-map (λ (e : Row Info × ℕ) q. index-map reply_to rows e.1 e.0 q.1) g.1 k.1))
            groups h))

  sorted_replies :
      (rows : List (Row Info))
      → All (λ (row : Row Info). task_to_env row.task_name ≡ some (envs row.task_name)) rows
      → map
          (λ (e : Reply Info Reward × ℕ). e.0)
          (sort
            (by_key (λ (e : Reply Info Reward × ℕ). e.1))
            (gathered (task_groups (enumerate_from 0 rows) [])))
        ≡ map reply_to rows
  sorted_replies rows known =
      let groups = task_groups (enumerate_from 0 rows) [] in
      let place : Reply Info Reward × ℕ → ℕ = λ e. e.1 in
      let es = sort (by_key place) (gathered groups) in
      let well =
        task_groups-OfTask K rows (enumerate_from 0 rows) []
          (enumerate_holds (λ (row : Row Info). K row.task_name) [] rows known) tt in
      let places : SameItems (map place es) (range (length rows)) = λ w.
        sum_by-map w place es
        ∙ sort-SameItems (by_key place) (gathered groups) (λ e. w e.1)
        ∙ sym (sum_by-map w place (gathered groups))
        ∙ gathered-places rows w in
      in_order [] (map reply_to rows) es
        (range_from_unique 0 (length rows) (map place es) places
            (sort-IsAscending place (gathered groups))
          ∙ ap range (sym (length-map reply_to rows)))
        (All-sort (by_key place) _ (gathered groups) (gathered-found rows groups well))

  abbrev env_of_group : Text × List (Row Info × ℕ) → Env Info Reward × List (Row Info × ℕ)
  env_of_group (name, group) = (envs name, group)

  abbrev gather :
      EnvironmentReturn Info Reward × (Env Info Reward × List (Row Info × ℕ))
      → Result (List (Reply Info Reward × ℕ))
  gather (result, (step, group)) = group_replies result group

  find_env-known :
      (name : Text) (group : List (Row Info × ℕ))
      → K name
      → find_env task_to_env (name, group) ≡ ok (envs name, group)
  unfolding find_env
  find_env-known name group known = rw (find_env, known) refl

  -- When every task has an environment, and every environment treats each sample alone, the replies
  -- are those to each sample, in the order of the samples: grouping the samples by their tasks and
  -- gathering the results loses and mixes nothing.
  pub calculate_rewards-pointwise :
      (rows : List (Row Info))
      → All (λ (row : Row Info). task_to_env row.task_name ≡ some (envs row.task_name)) rows
      → calculate_rewards task_to_env rows ≡ ok (map reply_to rows)
  unfolding calculate_rewards
  calculate_rewards-pointwise rows known =
      let groups = task_groups (enumerate_from 0 rows) [] in
      let well =
        task_groups-OfTask K rows (enumerate_from 0 rows) []
          (enumerate_holds (λ (row : Row Info). K row.task_name) [] rows known) tt in
      rw
        (
          each-ok (find_env task_to_env) env_of_group groups (
              All-map (λ (g : Text × List (Row Info × ℕ)) k. find_env-known g.0 g.1 k.0) groups
                well),
          each-map call_env env_of_group groups,
          each-ok (λ g. call_env (env_of_group g)) result_of groups
              (all (λ (g : Text × List (Row Info × ℕ)). call_env-alone g.0 g.1) groups),
          zip-map result_of env_of_group groups,
          each-map gather (λ g. (result_of g, env_of_group g)) groups,
          each-ok (λ g. gather (result_of g, env_of_group g))
              (λ (g : Text × List (Row Info × ℕ)).
                map (λ (e : Row Info × ℕ). (reply_to e.0, e.1)) g.1)
              groups
              (All-map
                (λ (g : Text × List (Row Info × ℕ)) k.
                  group_replies-alone g.0 g.1 (All-map (λ (e : Row Info × ℕ) q. q.0) g.1 k.1))
                groups well),
          sorted_replies rows known,
        )
        refl
