-- ===== src/Core/Reserved.antt =====
-- packages/core/src/reserved.ts
pub mod Laws
use tagwise_identity_protoco.Prelude.{Text, codes, Bool, List, [], ◌∷◌, member}

abbrev pub reserved_tags : List Text
reserved_tags =
    codes "admin"
    ∷ codes "administrator"
    ∷ codes "support"
    ∷ codes "help"
    ∷ codes "helpdesk"
    ∷ codes "official"
    ∷ codes "verify"
    ∷ codes "verified"
    ∷ codes "security"
    ∷ codes "billing"
    ∷ codes "payment"
    ∷ codes "payments"
    ∷ codes "wallet"
    ∷ codes "refund"
    ∷ codes "root"
    ∷ codes "system"
    ∷ codes "api"
    ∷ codes "www"
    ∷ codes "mail"
    ∷ codes "about"
    ∷ codes "settings"
    ∷ codes "login"
    ∷ codes "signup"
    ∷ codes "team"
    ∷ codes "staff"
    ∷ codes "moderator"
    ∷ codes "mod"
    ∷ codes "tip"
    ∷ codes "tagwise"
    ∷ codes "tagwise_official"
    ∷ []

unfoldable pub is_reserved_tag : Text → Bool
is_reserved_tag tag = member tag reserved_tags
