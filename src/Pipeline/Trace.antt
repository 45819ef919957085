-- ===== src/Pipeline/Trace.antt =====
-- The calls that the destination receives while the pipeline drains its channel.
use mathlib.Core.List.{append-nil, append_assoc}
use ibdm.Base.{
  ℕ, String, ◌≡◌, ◌≢◌, refl, sym, ap, ◌∙◌, true, Option, none, some, List, [], ◌∷◌, ◌++◌, Err, map,
  All,
}
use ibdm.Source
use ibdm.Destination.{Sender}
use ibdm.Pipeline.{DataMapper, Pipeline, handle, Select, cancelled, closed, received, mapping_data}
use ibdm.Pipeline.Plan.{
  Call, send, delete_item, perform, Plan, perform_all, execute, plan, handle-eq-execute,
}

-- A destination that also writes down every call, whatever its result.
abbrev pub recorded : {W : Type 0} → Sender W → Sender (W × List Call)
recorded s = record {
  send_data = λ d (w, log). (let (e, w') = s.send_data d w in (e, (w', log ++ send d ∷ [])));
  delete_data =
      λ d (w, log). (let (e, w') = s.delete_data d w in (e, (w', log ++ delete_item d ∷ [])));
}

abbrev pub observed : {W : Type 0} → Pipeline W → Pipeline (W × List Call)
observed p = record {
  mappers = p.mappers;
  destination = recorded p.destination;
  format = p.format;
  now = λ (w, log). p.now w;
}

-- The calls of a plan: those after the main call only if that one succeeds.
abbrev pub made : {W : Type 0} → Sender W → Plan → W → List Call
made s none w = []
made s (some (c, cs)) w = c ∷ (elim (perform s c w).0 [ none ↦ cs | some e ↦ [] ])

module _ {W : Type 0} (s : Sender W) where
  perform-recorded :
      (c : Call) (w : W) (log : List Call)
      → perform (recorded s) c (w, log) ≡ ((perform s c w).0, ((perform s c w).1, log ++ c ∷ []))
  perform-recorded (send d) w log = refl
  perform-recorded (delete_item d) w log = refl

  perform_all-recorded :
      (cs : List Call) (w : W) (log : List Call)
      → perform_all (recorded s) cs (w, log) ≡ (perform_all s cs w, log ++ cs)
  perform_all-recorded [] w log = ap (λ l. (w, l)) (sym (append-nil log))
  perform_all-recorded (c ∷ cs) w log =
      ap (λ r. perform_all (recorded s) cs r.1) (perform-recorded c w log)
      ∙ (perform_all-recorded cs (perform s c w).1 (log ++ c ∷ [])
          ∙ ap (λ l. (perform_all s cs (perform s c w).1, l)) (append_assoc log (c ∷ []) cs))

  after_main :
      (c : Call) (cs : List Call) (failure : Option Err) (w : W) (log : List Call)
      → elim failure [
        | some e ↦ (let r : W × List Call = (w, log ++ c ∷ []) in r)
        | none ↦ perform_all (recorded s) cs (w, log ++ c ∷ [])
      ]
        ≡ (
          elim failure [ some e ↦ w | none ↦ perform_all s cs w ],
          log ++ (c ∷ (elim failure [ none ↦ cs | some e ↦ [] ])),
        )
  after_main c cs none w log =
      perform_all-recorded cs w (log ++ c ∷ [])
      ∙ ap (λ l. (perform_all s cs w, l)) (append_assoc log (c ∷ []) cs)
  after_main c cs (some e) w log = refl

  pub execute-recorded :
      (q : Plan) (w : W) (log : List Call)
      → execute (recorded s) q (w, log) ≡ (execute s q w, log ++ made s q w)
  execute-recorded none w log = ap (λ l. (w, l)) (sym (append-nil log))
  execute-recorded (some (c, cs)) w log =
      ap (λ r. elim r.0 [ some e ↦ r.1 | none ↦ perform_all (recorded s) cs r.1 ])
        (perform-recorded c w log)
      ∙ after_main c cs (perform s c w).0 (perform s c w).1 log

-- For data that carries its time the destination receives, after what it received before: nothing
-- if the data has no mapper or its templates fail; otherwise the main call, and after it the calls
-- for the extra items in order exactly if the main call succeeded. Recording changes nothing else.
pub handle-observed :
    {W : Type 0} (p : Pipeline W) (d : Source.Data) (w : W) (log : List Call)
    → d.time ≢ 0
    → handle (observed p) d (w, log)
      ≡ (handle p d w, log ++ made p.destination (plan p.mappers p.format d) w)
handle-observed p d w log timed =
    handle-eq-execute (observed p) d timed (w, log)
    ∙ (execute-recorded p.destination (plan p.mappers p.format d) w log
        ∙ ap (λ v. (v, log ++ made p.destination (plan p.mappers p.format d) w))
            (sym (handle-eq-execute p d timed w)))

-- The data of a list handled one after another.
abbrev pub handle_all : {W : Type 0} → Pipeline W → List Source.Data → W → W
handle_all p [] w = w
handle_all p (d ∷ ds) w = handle_all p ds (handle p d w)

-- Until it is cancelled or the channel is closed the loop handles everything that it receives, in
-- order and one at a time; then it returns, and nothing that follows is looked at.
pub mapping_data-received :
    {W : Type 0} (p : Pipeline W) (ds : List Source.Data) (rest : List Select) (w : W)
    → (mapping_data p (map received ds ++ closed ∷ rest) w ≡ (true, handle_all p ds w))
      × (mapping_data p (map received ds ++ cancelled ∷ rest) w ≡ (true, handle_all p ds w))
unfolding mapping_data
mapping_data-received p [] rest w = (refl, refl)
mapping_data-received p (d ∷ ds) rest w = mapping_data-received p ds rest (handle p d w)

abbrev pub IsReliable : {W : Type 0} → Sender W → Type 0
IsReliable {W} s = (c : Call) (w : W) → (perform s c w).0 ≡ none

abbrev pub calls : Plan → List Call
calls none = []
calls (some (c, cs)) = c ∷ cs

abbrev pub all_calls : List (String × DataMapper) → (ℕ → String) → List Source.Data → List Call
all_calls mappers format [] = []
all_calls mappers format (d ∷ ds) = calls (plan mappers format d) ++ all_calls mappers format ds

made_of_reliable :
    {W : Type 0} (s : Sender W) (q : Plan) (w : W) → IsReliable s → made s q w ≡ calls q
made_of_reliable s none w k = refl
made_of_reliable s (some (c, cs)) w k = ap (λ e. c ∷ (elim e [ none ↦ cs | some _ ↦ [] ])) (k c w)

-- With a destination that accepts every call, draining a closed channel of data that carries its
-- time makes exactly the calls that the data asks for, in the order in which it was received:
-- nothing is lost, repeated or reordered.
pub mapping_data-delivers :
    {W : Type 0} (p : Pipeline W) (ds : List Source.Data) (w : W) (log : List Call)
    → IsReliable p.destination
    → All (λ d. d.time ≢ 0) ds
    → mapping_data (observed p) (map received ds ++ closed ∷ []) (w, log)
      ≡ (true, (handle_all p ds w, log ++ all_calls p.mappers p.format ds))
unfolding mapping_data
mapping_data-delivers p [] w log k timed = ap (λ l. (true, (w, l))) (sym (append-nil log))
mapping_data-delivers p (d ∷ ds) w log k (t, timed) =
    let q : Plan = plan p.mappers p.format d in
    ap (λ v. mapping_data (observed p) (map received ds ++ closed ∷ []) v)
      (handle-observed p d w log t
        ∙ ap (λ l. (handle p d w, log ++ l)) (made_of_reliable p.destination q w k))
    ∙ (mapping_data-delivers p ds (handle p d w) (log ++ calls q) k timed
        ∙ ap (λ l. (true, (handle_all p ds (handle p d w), l)))
            (append_assoc log (calls q) (all_calls p.mappers p.format ds)))
