-- ===== src/Contracts/Env.antt =====
-- crates/satunera-contracts/src/env.rs: the names of the variables that a run is given.
use satunera.Prelude.{
  Bool, true, false, ◌≡◌, refl, List, [], ◌∷◌, ◌++◌, Text, codes, text_eq, any, all, starts_with,
}
use satunera.Prelude.Keyed.{Distinct, Distinct-are_distinct}

-- `RESERVED_PREFIXES`
abbrev pub reserved_prefixes : List Text
reserved_prefixes = codes "JUDGE_" ∷ codes "BITCOIN_" ∷ []

-- `ALWAYS_INJECTED`
abbrev pub always_injected : List Text
always_injected =
    codes "JUDGE_PROBLEM_ID"
    ∷ codes "JUDGE_SUBMISSION_ID"
    ∷ codes "JUDGE_LANGUAGE"
    ∷ codes "JUDGE_WORKDIR"
    ∷ codes "JUDGE_SRC_DIR"
    ∷ codes "JUDGE_RUN"
    ∷ codes "JUDGE_WALL_SEC"
    ∷ codes "JUDGE_FIXTURE"
    ∷ codes "JUDGE_TMPDIR"
    ∷ codes "BITCOIN_NETWORK"
    ∷ codes "BITCOIN_RPC_HOST"
    ∷ codes "BITCOIN_RPC_PORT"
    ∷ codes "BITCOIN_RPC_USER"
    ∷ codes "BITCOIN_RPC_PASSWORD"
    ∷ codes "BITCOIN_RPC_URL"
    ∷ codes "BITCOIN_WALLET"
    ∷ codes "BITCOIN_CLI"
    ∷ []

-- `LND_INJECTED`
abbrev pub lnd_injected : List Text
lnd_injected =
    codes "LND_RPC_HOST"
    ∷ codes "LND_GRPC_PORT"
    ∷ codes "LND_TLS_CERT_PATH"
    ∷ codes "LND_MACAROON_PATH"
    ∷ []

-- `ELECTRS_INJECTED`
abbrev pub electrs_injected : List Text
electrs_injected = codes "ELECTRS_HOST" ∷ codes "ELECTRS_PORT" ∷ []

unfoldable pub all_names : List Text
all_names = always_injected ++ lnd_injected ++ electrs_injected

-- Whether a name has a reserved prefix.
abbrev pub is_reserved : Text → Bool
is_reserved name = any (λ prefix. starts_with name prefix) reserved_prefixes

-- No variable is listed twice, every variable of a plain run has a reserved prefix, and no variable of
-- the optional services has one.
pub all_names-Distinct :
    Distinct (λ name. name) all_names
    × (all is_reserved always_injected ≡ true)
    × (any is_reserved (lnd_injected ++ electrs_injected) ≡ false)
unfolding all_names any all text_eq starts_with
all_names-Distinct = (Distinct-are_distinct (λ name. name) all_names refl, refl, refl)
