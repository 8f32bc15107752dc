-- ===== src/Network/Journal.antt =====
-- internal/network/journal.go, with the checks of manager.go: what is written before a resource is made.
-- A journal that is written can be read back: encoding/json decodes what it has encoded.
use navo.Base.{
  ℕ, String, Bool, true, false, not, ◌&&◌, ◌||◌, List, [], ◌∷◌, str_eq, leb, ◌==◌, length,
}
use navo.Base.Int.{ℤ, pos, ltb_ℤ}
use navo.Base.Text.{codes, begins_with}

pub data ActionStatus : Type 0 where
  pending applied : ActionStatus

pub data ResourceKind : Type 0 where
  endpoint_route split_route nrpt_rule firewall_rule : ResourceKind
  other_kind : String → ResourceKind

-- journalResource without its flag: what the commands that touch a resource are made from.
pub record Identity : Type 0 where
  pub kind : ResourceKind
  pub destination_prefix : String
  pub address_family : String
  pub interface_index : ℕ
  pub interface_guid : String
  pub interface_alias : String
  pub next_hop : String
  pub route_metric : ℤ
  pub nrpt_namespace : String
  pub nrpt_comment : String
  pub name_servers : List String
  pub firewall_display_name : String

abbrev pub no_identity : ResourceKind → Identity
no_identity kind = record {
  kind = kind;
  destination_prefix = "";
  address_family = "";
  interface_index = 0;
  interface_guid = "";
  interface_alias = "";
  next_hop = "";
  route_metric = pos 0;
  nrpt_namespace = "";
  nrpt_comment = "";
  name_servers = [];
  firewall_display_name = "";
}

pub record JournalResource : Type 0 where
  pub identity : Identity
  pub created_by_navo : Bool

pub record JournalAction : Type 0 where
  pub name : String
  pub status : ActionStatus
  pub resource : JournalResource

-- The plan and the adapter that are stored with it for diagnosis are left out.
pub record Journal : Type 0 where
  pub version : ℕ
  pub adapter_name : String
  pub session_id : String
  pub actions : List JournalAction

-- The file at the journal's path. `readJournal` refuses an undecodable one and other versions.
pub data Disk : Type 0 where
  absent unreadable : Disk
  holds : Journal → Disk

-- What the code asks of Go's `net` and `regexp`: ParseCIDR, ParseIP and adapterNamePattern accept a text.
pub record Checks : Type 0 where
  pub is_cidr : String → Bool
  pub is_ip : String → Bool
  pub is_adapter_name : String → Bool

abbrev starts : String → String → Bool
starts text prefix = begins_with (codes text) (codes prefix)

unfoldable pub is_route : Checks → Identity → Bool
is_route checks r =
    checks.is_cidr r.destination_prefix
    && checks.is_ip r.next_hop
    && not (ltb_ℤ r.route_metric (pos 0))
    && not (r.interface_index == 0 && not (checks.is_adapter_name r.interface_alias))

-- validateJournalResource, true for a nil error.
unfoldable pub validate_journal_resource : Checks → Identity → Bool
validate_journal_resource checks r = elim r.kind [
  | endpoint_route ↦ is_route checks r
  | split_route ↦ is_route checks r
  | nrpt_rule ↦ str_eq r.nrpt_namespace "." && starts r.nrpt_comment "Navo:TUN:"
  | firewall_rule ↦ starts r.firewall_display_name "Navo TUN IPv6 Block "
  | other_kind name ↦ false
]

-- 0-9, a-z and the dash
unfoldable pub is_session_char : ℕ → Bool
is_session_char c = (leb 48 c && leb c 57) || (leb 97 c && leb c 122) || c == 45

unfoldable pub all_session_chars : List ℕ → Bool
all_session_chars [] = true
all_session_chars (c ∷ s) = is_session_char c && all_session_chars s

unfoldable pub all_valid : Checks → List JournalAction → Bool
all_valid checks [] = true
all_valid checks (a ∷ actions) =
    validate_journal_resource checks a.resource.identity && all_valid checks actions

-- validateRecoveryJournal. The length counts bytes, which for the characters that pass are code points.
unfoldable pub validate_recovery_journal : Checks → Journal → Bool
validate_recovery_journal checks j =
    j.version == 2
    && not (str_eq j.adapter_name "")
    && not (str_eq j.session_id "")
    && leb (length (codes j.session_id)) 64
    && all_session_chars (codes j.session_id)
    && checks.is_adapter_name j.adapter_name
    && all_valid checks j.actions
