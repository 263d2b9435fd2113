-- ===== src/Api/Routes/Accounts.antt =====
-- The routes that open an account and assess an invoice.
use vanguard_settlement_engi.Base.{String, none, [], ◌∷◌, ◌≡◌, inl, refl}
use vanguard_settlement_engi.Domain.{JwtPayload, VirtualAccount, supplier, platform_admin}
use vanguard_settlement_engi.Errors.{Result, ok, err}
use vanguard_settlement_engi.Database.{Tables, Generated}
use vanguard_settlement_engi.Database.Session.{World, ◌>>=◌, pure, from_result}
use vanguard_settlement_engi.Van.Service.{Texts, CreateVanCommand, create_van}
use vanguard_settlement_engi.Api.Authenticate.{Verified, Request}
use vanguard_settlement_engi.Api.Routes.{success, answered, post_van}
use vanguard_settlement_engi.Api.Schemas.{
  CreateVanBody, parse_van, AssessRiskBody, parse_assessment,
}
use vanguard_settlement_engi.Van.Openings.{Opens, create_van-Opens}
use vanguard_settlement_engi.Risk.Types.{AssessInvoiceRiskCommand}
use vanguard_settlement_engi.Risk.Records.{Assesses}
use vanguard_settlement_engi.Api.Routes.Answers.{
  Answered, IsFromOneOf, async_handler-Answered, reached-Answered,
}

module _ (verify : String → Verified) (texts : Texts) (body : CreateVanBody)
    (account_number : String) (given : Generated) (req : Request) where
  abbrev pub OpensOverHttp : Tables → Tables → Type 0
  OpensOverHttp t t' =
      (user : JwtPayload) × IsFromOneOf verify req (supplier ∷ platform_admin ∷ []) user
      × ((cmd : CreateVanCommand) × (parse_van body ≡ ok cmd)
          × Opens texts cmd account_number given t t')

  -- Whatever is sent and whatever fails, an opening over HTTP answers 201 only where it came with a
  -- Bearer token of a supplier or of the platform and a body that is a command, and checked and wrote
  -- what that opening does. With any other answer it did the same or left the tables as they were.
  pub post_van-Answered :
      (w : World)
      → w.tx ≡ none
      → Answered (λ _. 201) OpensOverHttp w (post_van verify texts body account_number given req w)
  unfolding post_van
  post_van-Answered w closed =
      reached-Answered verify (supplier ∷ platform_admin ∷ []) req (λ _. 201) _ OpensOverHttp w
        λ user from. go user from (parse_van body) refl
    where
      go :
          (user : JwtPayload) (from : IsFromOneOf verify req (supplier ∷ platform_admin ∷ []) user)
          (r : Result CreateVanCommand)
          → parse_van body ≡ r
          → Answered {A = VirtualAccount}
              (λ _. 201)
              OpensOverHttp
              w
              (answered (
                (from_result r >>= λ cmd.
                create_van texts cmd account_number given >>= λ van. pure (success 201 van))
                  w))
      go user from (err e) q = inl refl
      go user from (ok cmd) q =
          async_handler-Answered (λ _. 201) (Opens texts cmd account_number given) OpensOverHttp w
            (λ t t' opens. (user, from, (cmd, q, opens))) _
            (create_van-Opens texts cmd account_number given w closed)

module _ (body : AssessRiskBody) (given : Generated) where
  abbrev pub AssessesOverHttp : Tables → Tables → Type 0
  AssessesOverHttp t t' =
      (cmd : AssessInvoiceRiskCommand) × (parse_assessment body ≡ ok cmd)
      × Assesses cmd cmd.invoice_id given t t'
