-- ===== src/Client/Waiting.antt =====
-- Which packet `List` and `Get` take for the response to their query.
use orv.Base.{
  ℕ, ◌≡◌, ◌≢◌, ◌⊎◌, refl, arith, Bool, true, false, not, String, List, [], ◌∷◌, ◌++◌, Option, none,
  some, ◌==◌, nat_eq, text_eq, if◌then◌else◌, Result, ok, err, All, Option-cases, inl, inr,
  Bool-cases, ◌∙◌, ◌↔◌,
}
use orv.Protocol.{Header}
use orv.Protocol.MessageType
use orv.Protocol.Transport.{Context, Read}
use orv.Vk.State.{AddrPort}
use orv.Client.{ClientWire, ClientError}
use orv.Client.Queries.{Response, hear, received, hear_all}

module _ (wire : ClientWire) {A : Type 0} (type : ℕ) (read : List ℕ → Option (String × A))
    (token : String) where
  -- A packet that was received and does not end the wait: it is no fault, and either not of the type of
  -- the response, or a response that bears another token.
  abbrev pub is_other : Result ClientError (Header × List ℕ) → Bool
  is_other (err e) = false
  is_other (ok (hdr, body)) =
      if hdr.type == MessageType.fault
      then false
      else if hdr.type == type
      then elim (read body) [ none ↦ false | some (t, a) ↦ not (t == token) ]
      else true

  -- A response to the query.
  abbrev pub Answers : A → Result ClientError (Header × List ℕ) → Type 0
  Answers a r =
      (hdr : Header) × (body : List ℕ) × (r ≡ ok (hdr, body))
      × (hdr.type ≢ MessageType.fault)
      × (hdr.type ≡ type)
      × (read body ≡ some (token, a))

  hear-other :
      (from : AddrPort) (r : Result ClientError (Header × List ℕ)) (later : Response A)
      → is_other r ≡ true
      → hear wire type read token from r later ≡ later
  unfolding hear
  hear-other from (err e) later h = cc
  hear-other from (ok (hdr, body)) later h = elim (Option-cases (read body)) [
    | inl e ↦ ground arith
    | inr ((t, a), e) ↦ ground arith
  ]

  hear-Answers :
      (from : AddrPort) (r : Result ClientError (Header × List ℕ)) (later : Response A) (a : A)
      → Answers a r
      → hear wire type read token from r later ≡ some (ok (from, a))
  unfolding hear
  hear-Answers from r later a (hdr, body, e, f, g, h) =
      ground (arith, e, f, g, h, text_eq.beq_iff token token)

  -- A packet ends the wait with a response only as one of the type and the token.
  hear-found :
      (from who : AddrPort) (hdr : Header) (body : List ℕ) (later : Response A) (t : String)
      (b a : A)
      → read body ≡ some (t, b)
      → hdr.type == type ≡ true
      → t == token ≡ true
      → hear wire type read token from (ok (hdr, body)) later ≡ some (ok (who, a))
      → (who ≡ from) × (b ≡ a) × (hdr.type ≢ MessageType.fault) × (hdr.type ≡ type) × (t ≡ token)
  unfolding hear
  hear-found from who hdr body later t b a e f g h = ground (arith, text_eq.beq_iff t token)

  hear-passed :
      (from who : AddrPort) (hdr : Header) (body : List ℕ) (later : Response A) (a : A)
      → ((hdr.type == type ≡ false)
          ⊎ (read body ≡ none)
          ⊎ ((t : String) × (b : A) × (read body ≡ some (t, b)) × (t == token ≡ false)))
      → hear wire type read token from (ok (hdr, body)) later ≡ some (ok (who, a))
      → (is_other (ok (hdr, body)) ≡ true) × (later ≡ some (ok (who, a)))
  unfolding hear
  hear-passed from who hdr body later a (inl f) h = ground arith
  hear-passed from who hdr body later a (inr (inl e)) h = ground arith
  hear-passed from who hdr body later a (inr (inr (t, b, e, g))) h = ground arith

  hear-cases :
      (from who : AddrPort) (r : Result ClientError (Header × List ℕ)) (later : Response A) (a : A)
      → hear wire type read token from r later ≡ some (ok (who, a))
      → ((who ≡ from) × Answers a r) ⊎ ((is_other r ≡ true) × (later ≡ some (ok (who, a))))
  hear-cases from who (err e) later a h = absurd (unfold hear in ground arith)
  hear-cases from who (ok (hdr, body)) later a h = elim (Bool-cases (hdr.type == type)) [
    | inr f ↦ inr (hear-passed from who hdr body later a (inl f) h)
    | inl f ↦ elim (Option-cases (read body)) [
      | inl e ↦ inr (hear-passed from who hdr body later a (inr (inl e)) h)
      | inr ((t, b), e) ↦ elim (Bool-cases (t == token)) [
        | inr g ↦ inr (hear-passed from who hdr body later a (inr (inr (t, b, e, g))) h)
        | inl g ↦
            let k = hear-found from who hdr body later t b a e f g h in
            inl (k.0, (hdr, body, refl, k.2, k.3, ground (arith, e, k)))
      ]
    ]
  ]

  module _ (ctx : Context) where
    abbrev pub IsOther : AddrPort × Read → Type 0
    IsOther x = is_other (received ctx x.1) ≡ true

    hear_all-others :
        (before rest : List (AddrPort × Read))
        → All IsOther before
        → hear_all wire type read ctx token (before ++ rest)
          ≡ hear_all wire type read ctx token rest
    unfolding hear_all
    hear_all-others [] rest o = refl
    hear_all-others ((from, r) ∷ before) rest (o, os) =
        hear-other from (received ctx r) _ o ∙ hear_all-others before rest os

    -- The packets before the response, and the response.
    abbrev pub Found : A → AddrPort → List (AddrPort × Read) → Type 0
    Found a who arrivals =
        (before : List (AddrPort × Read)) × (r : Read) × (rest : List (AddrPort × Read)) × (arrivals
          ≡ before ++ (who, r) ∷ rest)
        × All IsOther before
        × Answers a (received ctx r)

    hear_all-Found :
        (arrivals : List (AddrPort × Read)) (who : AddrPort) (a : A)
        → hear_all wire type read ctx token arrivals ≡ some (ok (who, a))
        → Found a who arrivals
    unfolding hear_all
    hear_all-Found [] who a h = cc
    hear_all-Found ((from, r) ∷ arrivals) who a h =
        elim (hear-cases from who (received ctx r) (hear_all wire type read ctx token arrivals) a
          h) [
            | inl (same, answers) ↦ ([], r, arrivals, ground arith, tt, answers)
            | inr (other, later) ↦
                let (before, x, rest, split, others, answers) =
                  hear_all-Found arrivals who a later in
                ((from, r) ∷ before, x, rest, ground arith, (other, others), answers)
          ]

    Found-hear_all :
        (arrivals : List (AddrPort × Read)) (who : AddrPort) (a : A)
        → Found a who arrivals
        → hear_all wire type read ctx token arrivals ≡ some (ok (who, a))
    unfolding hear_all
    Found-hear_all arrivals who a (before, r, rest, split, others, answers) = rw split (
        hear_all-others before ((who, r) ∷ rest) others
        ∙ hear-Answers who (received ctx r) _ a answers)

    -- A query ends with a response exactly if, of the packets that reach its listener, the first that
    -- is an error, a fault, or of the type of the response and bears the token or cannot be read, is
    -- a response that bears the token; it is that response, with the address of its sender.
    pub hear_all_iff :
        (arrivals : List (AddrPort × Read)) (who : AddrPort) (a : A)
        → (hear_all wire type read ctx token arrivals ≡ some (ok (who, a))) ↔ Found a who arrivals
    hear_all_iff arrivals who a = (hear_all-Found arrivals who a, Found-hear_all arrivals who a)
