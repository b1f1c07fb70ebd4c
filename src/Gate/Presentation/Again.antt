-- ===== src/Gate/Presentation/Again.antt =====
-- internal/gate/pay.go, servePayment: a payment that has bought its pass and is presented again.
use anteroom.Common.{
  ◌≡◌, sym, ◌∙◌, ap, ◌≢◌, ◌<◌, true, none, [], arith, pos, pos_part, ltb_ℤ, unix, from_unix, subst,
}
use anteroom.Common.Text.{Str}
use anteroom.Common.Result.{ok}
use anteroom.Http.{Request}
use anteroom.Payment.Wire.{Requirements, Payload}
use anteroom.Payment.Store.{Grant, works}
use anteroom.Payment.Store.Records.{Encodes, committed, slot}
use anteroom.Gate.Passes.{Cookie, set_pass_cookie}
use anteroom.Gate.Decision.{pass_paid}
use anteroom.Gate.Presentation.{
  PricedRoute, PayDoor, grants, PayState, Meets, paid_pass, admitted, identify, serve_payment,
}
use anteroom.Gate.Presentation.Granting.{is_grant, serve_payment-Entitled}
use anteroom.Gate.Presentation.Refusing.{recovers}

-- A presentation that was answered with a pass can be repeated. With a disk that works, and as long as
-- the grant has not expired when it is read and when it is granted, the same header gets a pass of the
-- same grant if the keyring mints it, and neither the store nor the limiter nor the verifiers change:
-- nothing is settled a second time. The names of payments are not empty.
pub presented_again :
    {W : Type 0} (d : PayDoor W) (laws : Encodes d.json) (r : Request) (rule : PricedRoute)
    (first later : Meets) (presented : Str) (s : PayState W) (w : Grant) (c again : Cookie)
    (sent : Request)
    → ((p : Payload) (req : Requirements) (id : Str)
        → identify d r rule presented ≡ ok (p, (req, id))
        → id ≢ [])
    → (serve_payment d r rule presented first s).1 ≡ (pass_paid, grants c w sent)
    → later.disk_begin ≡ works
    → ltb_ℤ (pos (unix later.at_begin)) w.expires_at ≡ true
    → later.at_grant < from_unix (pos_part w.expires_at)
    → set_pass_cookie d.gate r later.at_mint (paid_pass w) (from_unix (pos_part w.expires_at)) none
      ≡ ok again
    → serve_payment d r rule presented later (serve_payment d r rule presented first s).0
      ≡ ((serve_payment d r rule presented first s).0, (pass_paid, grants again w (admitted r)))
presented_again d laws r rule first later presented s w c again sent named h disk live early
      minted =
    let (p, req, id, q, source, e) =
      serve_payment-Entitled d laws r rule first presented s (ap (λ a. is_grant a.1) h) in
    let same : e.grant ≡ w = ground (arith, e.served.passes, h) in
    let stored =
      subst (λ g. slot d.json (serve_payment d r rule presented first s).0.bucket id ≡ committed g)
        same e.stored in
    recovers d r rule later presented (serve_payment d r rule presented first s).0 p req id w again
      disk q (named p req id q) stored (ap (λ g. g.scope) (sym same) ∙ e.scope)
      (ap (λ g. g.audience) (sym same) ∙ e.audience) live early minted
