-- ===== src/Supervisor/Bounded.antt =====
-- agents/supervisors/provisioning/graph/graph.py: a turn of the graph ends, and how many runs of nodes it
-- takes.
use agentic_netops.Prelude.{
  List, Option, String, [], arith, if-When, inl, inr, leb, none, refl, some, suc, zero, ℕ, ◌*◌,
  ◌++◌, ◌+◌, ◌-◌, ◌<◌, ◌≡◌, ◌≢◌, ◌≤◌, ◌⊎◌,
}
use agentic_netops.Supervisor.{
  Done, Effect, GraphState, Node, Outside, Pending, WorkflowStatus, allocated, allocator, approved,
  clarify, completed, configured, confirm_1, confirm_2, confirm_remove, deployer, failed, finish,
  general_info, mapped, mapper, max_iterations, provisioning, received_request, reflection,
  status_unknown, supervisor, validated, verified,
}
use agentic_netops.Json.{Python}
use agentic_netops.Supervisor.Entry.{awaited}
use agentic_netops.Supervisor.Refusal.{bounded_exit, deadline_exceeded, ended}
use agentic_netops.Supervisor.Silent.{IsRoute, supervisor_node-Silent}
use agentic_netops.Supervisor.Steady.{IsExit}
use agentic_netops.Supervisor.Submitting.{deployer_node-Steady}
use agentic_netops.Supervisor.Turn.{
  asked_question, edge, failed_or_reflection, is_terminal, joined, loop_or_end, reflect,
  reflection_node, run_node, turn,
}
use agentic_netops.Supervisor.Working.{allocator_node-Steady, mapper_node-Steady}

-- A bound on the runs of nodes that are left, by the next node and the iteration count.
unfoldable pub runs_left : Node → ℕ → ℕ
runs_left supervisor n = 3 * (3 - n) + 3
runs_left mapper n = 3 * (3 - n) + 2
runs_left allocator n = 3 * (3 - n) + 2
runs_left deployer n = 3 * (3 - n) + 2
runs_left reflection n = 3 * (3 - n) + 1
runs_left general_info n = 1
runs_left finish n = 0

-- The reflection ends the turn, or it goes back to the supervisor with one more iteration below the
-- bound.
data Loops (s : GraphState) (d : Done GraphState) : Type 0 where
  ends : d.0.next_node ≡ finish → Loops s d
  again :
      d.0.next_node ≡ supervisor
      → d.0.iteration_count ≡ s.iteration_count + 1
      → s.iteration_count < 3
      → Loops s d

module _ (out : Outside) where
  bounded_exit-Loops : (s : GraphState) (why : String) → Loops s (bounded_exit out s why)
  unfolding bounded_exit ended
  bounded_exit-Loops s why = ends refl

  loop_or_end-Loops : (s : GraphState) → Loops s (loop_or_end out s)
  unfolding loop_or_end
  loop_or_end-Loops s =
      if-When (Loops s) (is_terminal s.workflow_status) (λ e. ends refl)
        (λ e.
          if-When (Loops s) (deadline_exceeded out s) (λ f. search bounded_exit-Loops)
            (λ f.
              if-When (Loops s) (leb max_iterations s.iteration_count)
                (λ g. search bounded_exit-Loops) (λ g. again refl refl (ground (arith, g)))))

  reflect-Loops : (s : GraphState) (p : Option Pending) → Loops s (reflect out s p)
  unfolding reflect asked_question
  reflect-Loops s (some confirm_1) = ends refl
  reflect-Loops s (some confirm_2) = ends refl
  reflect-Loops s (some clarify) = ends refl
  reflect-Loops s (some confirm_remove) = loop_or_end-Loops s
  reflect-Loops s none = loop_or_end-Loops s

  reflection_node-Loops : (s : GraphState) → Loops s (reflection_node out s)
  unfolding reflection_node
  reflection_node-Loops s = reflect-Loops s (awaited s)

route-Below : (node : Node) (n : ℕ) → IsRoute node → runs_left node n < runs_left supervisor n
unfolding runs_left
route-Below supervisor n h = absurd h
route-Below reflection n h = absurd h
route-Below mapper n h = omega arith
route-Below allocator n h = omega arith
route-Below deployer n h = omega arith
route-Below general_info n h = omega arith
route-Below finish n h = omega arith

exit-Below : (node : Node) (n : ℕ) → IsExit node → runs_left node n < 3 * (3 - n) + 2
unfolding runs_left
exit-Below finish n h = omega arith
exit-Below reflection n h = omega arith
exit-Below supervisor n h = absurd h
exit-Below mapper n h = absurd h
exit-Below allocator n h = absurd h
exit-Below deployer n h = absurd h
exit-Below general_info n h = absurd h

failed_or_reflection-IsExit : (w : WorkflowStatus) → IsExit (failed_or_reflection w)
unfolding failed_or_reflection
failed_or_reflection-IsExit failed = tt
failed_or_reflection-IsExit received_request = tt
failed_or_reflection-IsExit validated = tt
failed_or_reflection-IsExit mapped = tt
failed_or_reflection-IsExit allocated = tt
failed_or_reflection-IsExit approved = tt
failed_or_reflection-IsExit provisioning = tt
failed_or_reflection-IsExit configured = tt
failed_or_reflection-IsExit verified = tt
failed_or_reflection-IsExit completed = tt
failed_or_reflection-IsExit status_unknown = tt

Loops-Below :
    (s : GraphState) (d : Done GraphState)
    → Loops s d
    → runs_left d.0.next_node d.0.iteration_count < runs_left reflection s.iteration_count
unfolding runs_left
Loops-Below s d (ends e) = rw e (omega arith)
Loops-Below s d (again e c l) = rw (e, c) (omega (arith, l))

module _ ⦃py : Python⦄ where
  -- What is left after a run of a node.
  left_after : Outside → Node → GraphState → ℕ
  left_after out node s =
      runs_left (edge node (run_node out node s).0) (run_node out node s).0.iteration_count

  run_node-Below :
      (out : Outside) (node : Node) (s : GraphState)
      → (node ≡ finish) ⊎ (left_after out node s < runs_left node s.iteration_count)
  unfolding left_after run_node edge runs_left
  run_node-Below out supervisor s =
      let h = supervisor_node-Silent out s in
      inr (rw h.count (route-Below _ s.iteration_count h.route))
  run_node-Below out mapper s =
      let h = mapper_node-Steady out s in
      inr (rw h.count (exit-Below _ s.iteration_count (failed_or_reflection-IsExit _)))
  run_node-Below out allocator s =
      let h = allocator_node-Steady out s in
      inr (rw h.count (exit-Below _ s.iteration_count (failed_or_reflection-IsExit _)))
  run_node-Below out deployer s =
      let h = deployer_node-Steady out s in inr (rw h.count (exit-Below _ s.iteration_count h.exit))
  run_node-Below out reflection s = inr (Loops-Below s _ (reflection_node-Loops out s))
  run_node-Below out general_info s = inr (omega arith)
  run_node-Below out finish s = inl refl

  Ends : Option (Done GraphState) → Type 0
  Ends o = (d : Done GraphState) × (o ≡ some d)

  joined-Ends : (es : List Effect) (o : Option (Done GraphState)) → Ends o → Ends (joined es o)
  unfolding joined Ends
  joined-Ends es none (d, e) = absurd (ground arith)
  joined-Ends es (some (t, later)) h = ((t, es ++ later), refl)

  next-Fits :
      (n : ℕ) (out : Outside) (node : Node) (s : GraphState)
      → node ≢ finish
      → runs_left node s.iteration_count ≤ suc n
      → left_after out node s ≤ n
  next-Fits n out node s f h = elim (run_node-Below out node s) [
    | inl e ↦ absurd (f e)
    | inr l ↦ omega (arith, h, l)
  ]

  -- From any node and state, with whatever the nodes read from outside, a turn reaches the end within
  -- the bound on its runs.
  turn-Ends :
      (n : ℕ) (outs : ℕ → Outside) (node : Node) (s : GraphState)
      → runs_left node s.iteration_count ≤ n
      → (d : Done GraphState) × (turn n outs node s ≡ some d)
  unfolding turn Ends runs_left left_after
  turn-Ends n outs finish s h = ((s, []), refl)
  turn-Ends zero outs supervisor s h = absurd (omega (arith, h))
  turn-Ends zero outs mapper s h = absurd (omega (arith, h))
  turn-Ends zero outs allocator s h = absurd (omega (arith, h))
  turn-Ends zero outs deployer s h = absurd (omega (arith, h))
  turn-Ends zero outs reflection s h = absurd (omega (arith, h))
  turn-Ends zero outs general_info s h = absurd (omega (arith, h))
  turn-Ends (suc n) outs supervisor s h =
      joined-Ends (run_node (outs n) supervisor s).1 _
        (turn-Ends n outs _ _ (next-Fits n (outs n) supervisor s (λ e. ground arith) h))
  turn-Ends (suc n) outs mapper s h =
      joined-Ends (run_node (outs n) mapper s).1 _
        (turn-Ends n outs _ _ (next-Fits n (outs n) mapper s (λ e. ground arith) h))
  turn-Ends (suc n) outs allocator s h =
      joined-Ends (run_node (outs n) allocator s).1 _
        (turn-Ends n outs _ _ (next-Fits n (outs n) allocator s (λ e. ground arith) h))
  turn-Ends (suc n) outs deployer s h =
      joined-Ends (run_node (outs n) deployer s).1 _
        (turn-Ends n outs _ _ (next-Fits n (outs n) deployer s (λ e. ground arith) h))
  turn-Ends (suc n) outs reflection s h =
      joined-Ends (run_node (outs n) reflection s).1 _
        (turn-Ends n outs _ _ (next-Fits n (outs n) reflection s (λ e. ground arith) h))
  turn-Ends (suc n) outs general_info s h =
      let t = (run_node (outs n) general_info s).0 in
      joined-Ends [] (turn n outs finish t)
        (turn-Ends n outs finish t (next-Fits n (outs n) general_info s (λ e. ground arith) h))

  -- Every turn ends within twelve runs of nodes, whatever the state of the thread, the message, and the
  -- answers of the model and of the workers: the graph cannot loop.
  pub turn-Bounded :
      (outs : ℕ → Outside) (s : GraphState)
      → (d : Done GraphState) × (turn 12 outs supervisor s ≡ some d)
  unfolding runs_left
  turn-Bounded outs s = turn-Ends 12 outs supervisor s (omega arith)
