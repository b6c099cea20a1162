-- ===== src/Bulist.antt =====
-- pmip/bulist.cpp: the binding update list of a mobile access gateway, indexed by mobile node
-- identifier and by the link address of the mobile node. The second index holds identifiers.
use odi_mm.Base.{
  ℕ, ◌%◌, Bool, true, false, List, [], Option, none, Assoc, find, put, erase, nat_eq, list_eq,
  if◌then◌else◌,
}
use odi_mm.Types.{Prefix, ProxyBindingInfo}
use odi_mm.NodeDb.{is_some}

pub data BindStatus : Type 0 where
  bind_unknown bind_requested bind_renewing bind_ack bind_detach bind_error : BindStatus

-- What the entry's deadline timer waits for: `proxy_binding_retry` of a message after some
-- milliseconds, or `proxy_binding_renew` after some seconds.
pub data Wait (A : Type 0) : Type 0 where
  retries : ℕ → ProxyBindingInfo A → Wait A
  renews : ℕ → Wait A

pub record BulistEntry (A : Type 0) : Type 0 where
  pub mn_id : List ℕ
  pub mn_link_address : List ℕ
  pub mn_prefix_list : List Prefix
  pub home_address : A
  pub lma_address : A
  pub poa_dev_id : ℕ
  pub poa_address : List ℕ
  pub lifetime : ℕ
  pub sequence_number : ℕ
  pub bind_status : BindStatus
  pub retry_count : ℕ
  pub mtu : ℕ
  pub timer : Option (Wait A)
  -- The completion handler, by a number, if there is one.
  pub completion : Option ℕ

pub record Bulist (A : Type 0) : Type 0 where
  pub by_id : Assoc (List ℕ) (BulistEntry A)
  pub by_link : Assoc (List ℕ) (List ℕ)

-- The constructor; `now` is `std::time(nullptr)`.
unfoldable pub bulist_entry :
    {A : Type 0} → ℕ → List ℕ → List ℕ → List Prefix → A → A → ℕ → List ℕ → BulistEntry A
bulist_entry now mn_id mn_link_address mn_prefix_list home_address lma_address dev_id poa_address =
    record {
      mn_id = mn_id;
      mn_link_address = mn_link_address;
      mn_prefix_list = mn_prefix_list;
      home_address = home_address;
      lma_address = lma_address;
      poa_dev_id = dev_id;
      poa_address = poa_address;
      lifetime = 60;
      sequence_number = now % 65536;
      bind_status = bind_unknown;
      retry_count = 0;
      mtu = 1460;
      timer = none;
      completion = none;
    }

module _ {A : Type 0} where
  abbrev pub find_by_id : Bulist A → List ℕ → Option (BulistEntry A)
  find_by_id l mn_id = find mn_id l.by_id

  -- An entry under a taken identifier or a taken link address is deleted.
  unfoldable pub insert : Bulist A → BulistEntry A → Bulist A × Bool
  unfolding find put
  insert l e =
      if is_some (find e.mn_id l.by_id)
      then (l, false)
      else if is_some (find e.mn_link_address l.by_link)
      then (l, false)
      else (
        record { by_id = put e.mn_id e l.by_id; by_link = put e.mn_link_address e.mn_id l.by_link },
        true,
      )

  unfoldable pub remove : Bulist A → BulistEntry A → Bulist A
  unfolding erase
  remove l e = record { by_id = erase e.mn_id l.by_id; by_link = erase e.mn_link_address l.by_link }

  unfoldable pub clear : Bulist A → Bulist A
  clear l = record { by_id = []; by_link = [] }

  -- What the gateway writes through the pointer to an entry.
  abbrev pub store : BulistEntry A → Bulist A → Bulist A
  store e l = record l { by_id = put e.mn_id e l.by_id }
