-- ===== src/Server/Credentials.antt =====
-- The credentials of a `Client` (the decorator of src/client.cpp) at the server (src/server.cpp).
use lib_native_streaming.Common.{
  ℕ, ◌≡◌, refl, Bool, true, false, if◌then◌else◌, Option, none, some, List, [], ◌∷◌, ◌++◌,
}
use lib_native_streaming.Common.Bytes.{codes, free_of}
use lib_native_streaming.Common.Errors.{success, info}
use lib_native_streaming.Common.Effects.{◌>>=◌, ◌>>◌}
use lib_native_streaming.Common.Results.{Result, returned, thrown, undefined}
use lib_native_streaming.Common.Results
use lib_native_streaming.Common.Connections.{HttpFields}
use lib_native_streaming.Base64.{Codec, CodecLaws}
use lib_native_streaming.Authentication.{
  Authentication, basic_authentication, no_authentication, StringAlgorithm, StringLaws, from_header,
  get_encoded_header,
}
use lib_native_streaming.Authentication.Splitting.{is_colon}
use lib_native_streaming.Authentication.RoundTrip.{IsBytes, from_header-encoded_iff}
use lib_native_streaming.Client.{decorate_request}
use lib_native_streaming.Server.{
  Server, Effect, call_authenticate, set_decorator, async_upgrade, log, Authenticate,
  authentication_of, on_read_accept_request,
}

-- What the server does with the callback's answer.
abbrev pub verdict : ℕ → HttpFields → Bool × Option ℕ → List Effect
verdict stream req answer =
    if answer.0
    then set_decorator stream ∷ async_upgrade stream req answer.1 ∷ []
    else log info ∷ []

-- What the client's decorator makes of the request, and what the server does with it.
abbrev pub Asks :
    StringAlgorithm
    → Codec
    → Authenticate
    → List ℕ
    → ℕ
    → HttpFields
    → Server
    → Authentication
    → Type 0
Asks sa codec authenticate version stream fields s auth =
    (req : HttpFields) × (decorate_request codec version auth fields ≡ returned req)
    × (on_read_accept_request sa codec authenticate success stream req s
        ≡ some (tt, s, call_authenticate auth ∷ verdict stream req (authenticate stream auth)))

module _ (sa : StringAlgorithm) (codec : Codec) (authenticate : Authenticate) where
  pub asked :
      (stream : ℕ) (req : HttpFields) (s : Server) (auth : Authentication) (b : Bool)
      → authentication_of sa codec req.authorization s ≡ some (auth, s, [])
      → (authenticate stream auth).0 ≡ b
      → on_read_accept_request sa codec authenticate success stream req s
        ≡ some (tt, s, call_authenticate auth ∷ verdict stream req (authenticate stream auth))
  unfolding on_read_accept_request
  asked stream req s auth true e f = rw (◌>>=◌, e, ◌>>◌, ◌>>=◌, f) refl
  asked stream req s auth false e f = rw (◌>>=◌, e, ◌>>◌, ◌>>=◌, f) refl

  module _ (sl : StringLaws sa) (cl : CodecLaws codec) where
    by_header :
        (version : List ℕ) (stream : ℕ) (fields : HttpFields) (s : Server) (u p : List ℕ)
        (q : Result (List ℕ))
        → get_encoded_header codec (basic_authentication u p) ≡ q
        → Results.◌>>=◌ q (from_header sa codec) ≡ returned (basic_authentication u p)
        → Asks sa codec authenticate version stream fields s (basic_authentication u p)
    unfolding decorate_request
    by_header version stream fields s u p (returned header) e f =
        let auth = basic_authentication u p in
        let req : HttpFields = record {
          agent = some (version ++ codes " openDAQ-streaming-client");
          authorization = some header;
        } in
        (req, rw e refl, asked stream req s auth (authenticate stream auth).0 (rw f refl) refl)
    by_header version stream fields s u p (thrown x) e f = absurd cc
    by_header version stream fields s u p undefined e f = absurd cc

    -- With a codec and a string algorithm that keep their documentation, Basic credentials of bytes
    -- without a colon, in the user name or in the password, reach the callback as they were: the
    -- request that the client's decorator makes has the server ask the callback for exactly these,
    -- and the server upgrades the connection if and only if it accepts.
    pub credentials_arrive :
        (version : List ℕ) (stream : ℕ) (fields : HttpFields) (s : Server) (u p : List ℕ)
        → IsBytes u
        → IsBytes p
        → free_of is_colon u ≡ true
        → free_of is_colon p ≡ true
        → Asks sa codec authenticate version stream fields s (basic_authentication u p)
    credentials_arrive version stream fields s u p bu bp hu hp =
        by_header version stream fields s u p (get_encoded_header codec (basic_authentication u p))
          refl ((from_header-encoded_iff sa sl codec cl u p bu bp hu).1 hp)

  -- A client without credentials leaves the Authorization header of the request alone: where there
  -- is none, the server asks the callback for anonymous credentials, and upgrades the connection if
  -- and only if it accepts.
  pub anonymous_arrives :
      (version : List ℕ) (stream : ℕ) (fields : HttpFields) (s : Server)
      → fields.authorization ≡ none
      → Asks sa codec authenticate version stream fields s no_authentication
  unfolding decorate_request
  anonymous_arrives version stream fields s e =
      let req : HttpFields = record fields {
        agent = some (version ++ codes " openDAQ-streaming-client");
      } in
      (
        req,
        refl,
        asked stream req s no_authentication (authenticate stream no_authentication).0 (rw e refl)
            refl,
      )
