-- ===== src/Constants/Domain.antt =====
-- lib/baileys_ex/protocol/constants.ex: the domain types of AD_JID encoding.
use baileys_ex.Base.{ℕ}

-- The keys of `@wajid_domains`.
pub data WajidDomain : Type 0 where
  whatsapp lid hosted hosted_lid : WajidDomain

abbrev pub wajid_domain : WajidDomain → ℕ
wajid_domain WajidDomain.whatsapp = 0
wajid_domain WajidDomain.lid = 1
wajid_domain WajidDomain.hosted = 128
wajid_domain WajidDomain.hosted_lid = 129
