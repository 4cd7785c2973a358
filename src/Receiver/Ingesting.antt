-- ===== src/Receiver/Ingesting.antt =====
-- Which requests internal/receiver/receiver.go stores and acknowledges.
use otelstore.Base.{
  ℕ, true, false, ◌≡◌, ◌≢◌, ◌≤◌, refl, sym, ap, ◌∙◌, Option, none, some, List, length, take,
  Outcome, ok, err, Error, ◌==◌, string_discrete, leb, leb→le, arith, Bool-cases, Outcome-cases,
  Option-cases, inl, inr, ◌⊎◌, if◌then◌else◌,
}
use otelstore.Http.{Request, Reply}
use otelstore.Ingest.{ResourceGroup}
use otelstore.Receiver.{
  max_body_bytes, invalid_argument, internal, unimplemented, Externals, Decoders, read_body, reject,
  decode_request, go_on, stop, read_and_decode, write_response, handle_export,
}
use otelstore.Receiver.Outcomes.{IsRefusal, reject-IsRefusal}

abbrev pub refusal_status : Request → ℕ
refusal_status r = if r.method == "POST" then 400 else 405

read_whole : (r : Request) → length r.body ≤ max_body_bytes → read_body r ≡ (r.body, r.body_error)
unfolding read_body
read_whole r h =
    let small : leb (length r.body) max_body_bytes ≡ true = ground arith in rw small refl

read_part :
    (r : Request)
    → leb (length r.body) max_body_bytes ≡ false
    → read_body r ≡ (take max_body_bytes r.body, some "http: request body too large")
unfolding read_body
read_part r more = rw more refl

module _ (X : Externals) {A : Type 0} (decoders : Decoders A) where
  -- A POST whose body arrives whole, is at most 64 MiB long, and decodes to the request.
  pub record IsAccepted (r : Request) (req : List (ResourceGroup A)) : Type 0 where
    pub post : r.method ≡ "POST"
    pub small : length r.body ≤ max_body_bytes
    pub arrived : r.body_error ≡ none
    pub decoded : decode_request X decoders r r.body ≡ ok req

  module _ (r : Request) where
    reads_accepted :
        (req : List (ResourceGroup A))
        → IsAccepted r req
        → read_and_decode X decoders r ≡ go_on (length r.body) req
    unfolding read_and_decode
    reads_accepted req a =
        let k : read_body r ≡ (r.body, none) =
          read_whole r a.small ∙ ap (λ (o : Option Error). (r.body, o)) a.arrived in
        let body_is : (read_body r).0 ≡ r.body = ap (λ p. p.0) k in
        let no_failure : (read_body r).1 ≡ none = ap (λ p. p.1) k in
        ground (arith, a.post, a.decoded)

    abbrev Stops : Type 0
    Stops =
        (reply : Reply) × (read_and_decode X decoders r ≡ stop reply)
        × IsRefusal X r (refusal_status r) reply

    stops_at_method : r.method ≢ "POST" → Stops
    unfolding read_and_decode
    stops_at_method h = (
      reject X r 405 unimplemented "method" "method not allowed" none 0,
      ground arith,
      let e : refusal_status r ≡ 405 = ground arith in
          rw e (reject-IsRefusal X r 405 unimplemented "method" "method not allowed" none 0),
    )

    stops_at_body :
        (body : List ℕ) (e : Error) → r.method ≡ "POST" → read_body r ≡ (body, some e) → Stops
    unfolding read_and_decode
    stops_at_body body e h k = (
      reject X r 400 invalid_argument "read body" "read request body" (some e) (length body),
      rw (k, read_and_decode) (ground arith),
      let c : refusal_status r ≡ 400 = ground arith in
          rw c (
            reject-IsRefusal X r 400 invalid_argument "read body" "read request body" (some e)
              (length body)),
    )

    stops_at_decoding :
        (body : List ℕ) (e : Error)
        → r.method ≡ "POST"
        → read_body r ≡ (body, none)
        → decode_request X decoders r body ≡ err e
        → Stops
    unfolding read_and_decode
    stops_at_decoding body e h k l =
        let body_is : (read_body r).0 ≡ body = ap (λ p. p.0) k in
        let no_failure : (read_body r).1 ≡ none = ap (λ p. p.1) k in
        let stops_there : read_and_decode X decoders r
            ≡ stop (
                reject X r 400 invalid_argument "unmarshal" "unmarshal error" (some e)
                  (length body)) =
          ground (arith, l) in
        (
          reject X r 400 invalid_argument "unmarshal" "unmarshal error" (some e) (length body),
          stops_there,
          let c : refusal_status r ≡ 400 = ground arith in
              rw c (
                reject-IsRefusal X r 400 invalid_argument "unmarshal" "unmarshal error" (some e)
                  (length body)),
        )

    abbrev Reads : Type 0
    Reads = ((req : List (ResourceGroup A)) × IsAccepted r req) ⊎ Stops

    reads : Reads
    reads = elim (string_discrete r.method "POST") [
      | no n ↦ inr (stops_at_method n)
      | yes post ↦ elim (Bool-cases (leb (length r.body) max_body_bytes)) [
        | inr more ↦ inr (stops_at_body _ _ post (read_part r more))
        | inl fits ↦
            let whole = read_whole r (leb→le _ _ fits) in
            elim (Option-cases r.body_error) [
              | inr (e, broken) ↦
                  inr
                    (stops_at_body _ e post (whole ∙ ap (λ (o : Option Error). (r.body, o)) broken))
              | inl arrived ↦ elim (Outcome-cases (decode_request X decoders r r.body)) [
                | inr (e, bad) ↦ inr (
                    stops_at_decoding _ e post
                      (whole ∙ ap (λ (o : Option Error). (r.body, o)) arrived) bad)
                | inl (req, good) ↦ inl (
                  req,
                  record {
                    post = post;
                    small = leb→le _ _ fits;
                    arrived = arrived;
                    decoded = good;
                  },
                )
              ]
            ]
      ]
    ]

  module _ {S : Type 0} (store : List (ResourceGroup A) → S → Outcome (Unit {0}) × S) (r : Request)
      (s : S) where
    abbrev handled : Reply × S
    handled = handle_export X decoders store r s

    stored_and_answered :
        (req : List (ResourceGroup A))
        → IsAccepted r req
        → (store req s).0 ≡ ok tt
        → handled ≡ (write_response X r, (store req s).1)
    unfolding handle_export
    stored_and_answered req a h = rw (reads_accepted r req a, handle_export, h) refl

    not_stored :
        (req : List (ResourceGroup A)) (e : Error)
        → IsAccepted r req
        → (store req s).0 ≡ err e
        → handled ≡ (
          reject X r 500 internal "store insert" "store insert" (some e) (length r.body),
          (store req s).1,
        )
    unfolding handle_export
    not_stored req e a h = rw (reads_accepted r req a, handle_export, h) refl

    stopped : (reply : Reply) → read_and_decode X decoders r ≡ stop reply → handled ≡ (reply, s)
    unfolding handle_export
    stopped reply h = rw (h, handle_export) refl

    -- What a handler of the receiver does with a request. One that is no POST is refused with 405.
    -- One whose body is longer than 64 MiB, breaks off, or does not decode is refused with 400.
    -- Neither changes anything. Any other is stored; if that fails it is refused with 500 and the
    -- store is as the failure left it, and else it is answered. A refusal is logged, and carries a
    -- status message in the request's encoding, if that can be encoded.
    pub handle_export_lem :
        (((req : List (ResourceGroup A)) → ¬ IsAccepted r req)
          → IsRefusal X r (refusal_status r) handled.0 × (handled.1 ≡ s))
        × ((req : List (ResourceGroup A))
            → IsAccepted r req
            → ((store req s).0 ≡ ok tt → handled ≡ (write_response X r, (store req s).1))
              × ((e : Error)
                  → (store req s).0 ≡ err e
                  → IsRefusal X r 500 handled.0 × (handled.1 ≡ (store req s).1)))
    handle_export_lem = (
      (λ h. elim (reads r) [
        | inl (req, a) ↦ absurd (h req a)
        | inr (reply, stops, refusal) ↦ rw (stopped reply stops) (refusal, refl)
      ]),
      (λ req a. (
        stored_and_answered req a,
        (λ e h. rw (not_stored req e a h) (
          reject-IsRefusal X r 500 internal "store insert" "store insert" (some e) (length r.body),
          refl,
        )),
      )),
    )

    refusal_status_ne : refusal_status r ≢ 200
    refusal_status_ne h = ground arith

    -- A request that is answered with 200 was accepted, and all of it was stored.
    pub handle_export_acknowledges :
        handled.0.response.status ≡ 200
        → (req : List (ResourceGroup A)) × IsAccepted r req
          × ((store req s).0 ≡ ok tt)
          × (handled.1 ≡ (store req s).1)
    handle_export_acknowledges h = elim (reads r) [
      | inr (reply, stops, refusal) ↦ absurd (
          refusal_status_ne
            (sym refusal.status_is ∙ sym (ap (λ p. p.0.response.status) (stopped reply stops)) ∙ h))
      | inl (req, a) ↦ elim (Outcome-cases (store req s).0) [
        | inl (_, done) ↦ (req, a, done, ap (λ p. p.1) (stored_and_answered req a done))
        | inr (e, failed) ↦
            let refusal =
              reject-IsRefusal X r 500 internal "store insert" "store insert" (some e)
                (length r.body) in
            absurd (ground (arith, refusal.status_is, not_stored req e a failed))
      ]
    ]
