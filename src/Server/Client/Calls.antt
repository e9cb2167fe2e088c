-- ===== src/Server/Client/Calls.antt =====
-- A call that returns: the request it wrote, the answer it read, and when.
use blender_design.Common.{
  ℕ, ◌+◌, ◌<◌, ◌≤◌, ◌≡◌, refl, sym, ap, ◌∙◌, List, ◌∷◌, ◌++◌, Option, Result, ok, err, subst,
}
use blender_design.Protocol.Framing.{Bytes, empty_buffer}
use blender_design.Protocol.Framing.RoundTrip.{feed_all}
use blender_design.Protocol.Json.{Text, Fields}
use blender_design.Protocol.Envelope.{
  JsonCodec, max_request_budget_ms, encode_request, decode_response,
}
use blender_design.Server.Response.{Failure, unavailable, frame_error, response_result}
use blender_design.Server.Client.Socket.{Env, World}
use blender_design.Server.Client.{
  observe, check_deadline, poll, remaining_budget_ms, connect, send, lift, of_result,
  translate_outcome, translated, request_of_call, exchange, deadline_of, call,
}
use blender_design.Server.Response.Laws.{err≢ok}
use blender_design.Server.Client.Effects.{
  world_eq, continue-eq-ok, Same, Same-trans, Same-observe, check_deadline-eq-ok,
  check_deadline-Same, poll-Same, connect-Same, Wrote, send-Wrote,
}
use blender_design.Server.Client.Answers.{
  Read, Same-Read, value_eq, receive-Read, remaining_budget_ms-eq-ok,
}

lift-eq-ok :
    {E A : Type 0} (e : Failure) (r : Result E A) (w w' : World) {a : A}
    → lift e r w ≡ (ok a, w')
    → (r ≡ ok a) × (w ≡ w')
lift-eq-ok e (ok a) w w' h = (ap (λ x. ok x) (value_eq h), world_eq h)
lift-eq-ok e (err x) w w' h = absurd (err≢ok (ap (λ p. p.0) h))

of_result-eq-ok :
    {A : Type 0} (r : Result Failure A) (w w' : World) {a : A}
    → of_result r w ≡ (ok a, w')
    → (r ≡ ok a) × (w ≡ w')
of_result-eq-ok (ok a) w w' h = (ap (λ x. ok x) (value_eq h), world_eq h)
of_result-eq-ok (err x) w w' h = absurd (err≢ok (ap (λ p. p.0) h))

translate_outcome-eq-ok :
    {A : Type 0} (r : Result Failure A × World) {a : A} {w' : World}
    → translate_outcome r ≡ (ok a, w')
    → r ≡ (ok a, w')
translate_outcome-eq-ok (ok b, w) h = h
translate_outcome-eq-ok (err e, w) h = absurd (err≢ok (ap (λ p. p.0) h))

module _ (codec : JsonCodec) (env : Env) (token method : Text) (params : Fields) where
  -- The request was written and the first frame of what was read is `payload`.
  pub record Exchanged (payload : Bytes) (w w' : World) : Type 0 where
    pub budget_ms : ℕ
    pub frame : Bytes
    pub some_budget : 0 < budget_ms
    pub small_budget : budget_ms ≤ max_request_budget_ms
    pub frame_eq :
        encode_request codec (request_of_call codec env token method params budget_ms) ≡ ok frame
    pub written_eq : w'.written ≡ w.written ++ frame
    pub pieces : List Bytes
    pub others : List Bytes
    pub inbound_eq : w'.inbound ≡ w.inbound ++ pieces
    pub frames_eq : (feed_all empty_buffer pieces).0 ≡ ok (payload ∷ others)

  exchanged :
      (budget_ms : ℕ) (frame payload : Bytes) (u v x w' : World)
      → (0 < budget_ms) × (budget_ms ≤ max_request_budget_ms) × Same u v
      → encode_request codec (request_of_call codec env token method params budget_ms) ≡ ok frame
      → Wrote frame v x
      → Read (λ ps. (feed_all empty_buffer ps).0) payload x w'
      → Exchanged payload u w'
  exchanged budget_ms frame payload u v x w' (some_budget, small_budget, same) e a r = record {
    budget_ms = budget_ms;
    frame = frame;
    some_budget = some_budget;
    small_budget = small_budget;
    frame_eq = e;
    written_eq = r.written_eq ∙ a.written_eq ∙ ap (λ xs. xs ++ frame) same.written_eq;
    pieces = r.pieces;
    others = r.others;
    inbound_eq = r.inbound_eq ∙ ap (λ xs. xs ++ r.pieces) (a.inbound_eq ∙ same.inbound_eq);
    frames_eq = r.frames_eq;
  }

  exchange-Exchanged :
      (fuel deadline : ℕ) (w w' : World) {payload : Bytes}
      → exchange codec env fuel token method params deadline w ≡ (ok payload, w')
      → Exchanged payload w w'
  unfolding exchange
  exchange-Exchanged fuel deadline w w' {payload} h =
      let (_, (w₁, e₁, h₁)) = continue-eq-ok _ (connect env fuel deadline w) h in
      let (_, (w₂, e₂, h₂)) = continue-eq-ok _ (check_deadline env deadline w₁) h₁ in
      let (b, (w₃, e₃, h₃)) = continue-eq-ok _ (remaining_budget_ms env deadline w₂) h₂ in
      let (frame, (w₄, e₄, h₄)) =
        continue-eq-ok _
          (lift frame_error (encode_request codec (request_of_call codec env token method params b))
            w₃)
          h₃ in
      let (_, (w₅, e₅, h₅)) = continue-eq-ok _ (check_deadline env deadline w₄) h₄ in
      let (_, (w₆, e₆, h₆)) = continue-eq-ok _ (send env fuel deadline frame w₅) h₅ in
      let (_, (w₇, e₇, h₇)) = continue-eq-ok _ (check_deadline env deadline w₆) h₆ in
      let (some_budget, small, same) = remaining_budget_ms-eq-ok env deadline w₂ w₃ e₃ in
      let (encoded, here) =
        lift-eq-ok frame_error
          (encode_request codec (request_of_call codec env token method params b)) w₃ w₄ e₄ in
      let before =
        Same-trans (connect-Same env fuel deadline w w₁ e₁)
          (check_deadline-Same env deadline w₁ w₂ e₂) in
      let start : Same w w₅ =
        Same-trans (Same-trans before same)
          (subst (λ u. Same u w₅) (sym here) (check_deadline-Same env deadline w₄ w₅ e₅)) in
      exchanged b frame payload w w₅ w₆ w' (some_budget, small, start) encoded
        (send-Wrote env fuel deadline frame w₅ w₆ e₆)
        (Same-Read (check_deadline-Same env deadline w₆ w₇ e₇)
          (receive-Read env fuel deadline empty_buffer w₇ w' h₇))

  -- What a call that returned `fields` has done.
  pub record Called (deadline : ℕ) (fields : Fields) (w w' : World) : Type 0 where
    pub payload : Bytes
    pub response : Fields
    pub exchanged : Exchanged payload w w'
    pub decoded : decode_response codec payload ≡ ok response
    pub result_eq : response_result response env.uuid ≡ ok fields
    pub last : ℕ
    pub observed_eq : w'.observed ≡ last + 1
    pub in_time : env.clock last < deadline

  called :
      (deadline : ℕ) (payload : Bytes) (response fields : Fields) (w u v x w' : World)
      → Same w u
      → Exchanged payload u v
      → decode_response codec payload ≡ ok response
      → (env.clock v.observed < deadline) × (x ≡ observe env v)
      → response_result response env.uuid ≡ ok fields
      → x ≡ w'
      → Called deadline fields w w'
  called deadline payload response fields w u v x w' a b d (in_time, e) r f =
      rw (← f, e)
        (record {
          payload = payload;
          response = response;
          exchanged = record {
            budget_ms = b.budget_ms;
            frame = b.frame;
            some_budget = b.some_budget;
            small_budget = b.small_budget;
            frame_eq = b.frame_eq;
            written_eq = b.written_eq ∙ ap (λ xs. xs ++ b.frame) a.written_eq;
            pieces = b.pieces;
            others = b.others;
            inbound_eq = b.inbound_eq ∙ ap (λ xs. xs ++ b.pieces) a.inbound_eq;
            frames_eq = b.frames_eq;
          };
          decoded = d;
          result_eq = r;
          last = v.observed;
          observed_eq = refl;
          in_time = in_time;
        })

  -- A call that returns has written one frame, of a request with the id drawn for it and a budget
  -- of at least one millisecond and at most the bridge's limit; its answer is the first frame of the
  -- bytes it read, which decodes to a response that carries that id and this result; and the last
  -- time it looked at the clock, its deadline had not come.
  pub call-Called :
      (fuel : ℕ) (timeout limit : Option ℕ) (w w' : World) (fields : Fields)
      → call codec env fuel token method params timeout limit w ≡ (ok fields, w')
      → Called (deadline_of method timeout limit (env.clock w.observed)) fields w w'
  unfolding call
  call-Called fuel timeout limit w w' fields h =
      let deadline = deadline_of method timeout limit (env.clock w.observed) in
      let w₀ = observe env w in
      let (_, (w₁, e₁, h₁)) = continue-eq-ok _ (check_deadline env deadline w₀) h in
      let (_, (w₂, e₂, h₂)) = continue-eq-ok _ (poll env w₁) h₁ in
      let (payload, (w₃, e₃, h₃)) =
        continue-eq-ok _ (translated (exchange codec env fuel token method params deadline) w₂)
          h₂ in
      let (response, (w₄, e₄, h₄)) =
        continue-eq-ok _ (lift unavailable (decode_response codec payload) w₃) h₃ in
      let (_, (w₅, e₅, h₅)) = continue-eq-ok _ (check_deadline env deadline w₄) h₄ in
      let start : Same w w₂ =
        Same-trans (Same-observe env w)
          (Same-trans (check_deadline-Same env deadline w₀ w₁ e₁) (poll-Same env w₁ w₂ e₂)) in
      let exchanged =
        exchange-Exchanged fuel deadline w₂ w₃
          (translate_outcome-eq-ok (exchange codec env fuel token method params deadline w₂) e₃) in
      let (decoded, here) = lift-eq-ok unavailable (decode_response codec payload) w₃ w₄ e₄ in
      let (result, there) = of_result-eq-ok (response_result response env.uuid) w₅ w' h₅ in
      called deadline payload response fields w w₂ w₄ w₅ w' start
        (subst (Exchanged payload w₂) here exchanged) decoded
        (check_deadline-eq-ok env deadline w₄ w₅ e₅) result there
