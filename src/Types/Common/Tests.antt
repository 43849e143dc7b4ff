-- ===== src/Types/Common/Tests.antt =====
-- The theorems about the names on the wire at concrete inputs.
use rdapify.Base.{◌≡◌, some}
use rdapify.Base.Text.{text}
use rdapify.Core.Validation.{string}
use rdapify.Types.Common.{RdapStatus, deserialize_status, serialize_status}
use rdapify.Types.Common.Names.{serialize_status-deserialize_status}

serialize_status-deserialize_status_example :
    (s : RdapStatus) × (deserialize_status (string (text "active")) ≡ some s)
    × (serialize_status s ≡ text "active")
serialize_status-deserialize_status_example = serialize_status-deserialize_status (text "active")
