-- ===== src/Supervisor/Patterns.antt =====
-- agents/supervisors/provisioning/graph/graph.py: the patterns of the detectors, and what a refusal
-- suggests instead.
use agentic_netops.Prelude.{List, String, [], ◌∷◌}

abbrev device_family_access : String
device_family_access = "direct device access (SSH/CLI/console)"

abbrev device_family_config : String
device_family_config = "direct configuration write to a device"

abbrev device_family_protocol : String
device_family_protocol = "device control protocol (RESTCONF/NETCONF/gNMI)"

abbrev device_family_action : String
device_family_action = "direct action on a device"

abbrev pub default_suggestion : String
default_suggestion =
    "provision it declaratively instead — e.g. 'extend vlan 100 as a mac-vrf across <siteA> <portA> and <siteB> <portB> for tenant <tenant>' or 'give tenant <tenant> an ip-vrf carrying 10.50.0.0/24 on <siteA> wan1'. I will map it into an interpretation, allocate from the allocation authority, and submit it to the cluster only after your two explicit confirmations."

-- Each pattern with the family it belongs to.
abbrev pub direct_device_patterns : List (String × String)
direct_device_patterns =
    ("\\bssh\\b", device_family_access)
    ∷ ("\\bscp\\b", device_family_access)
    ∷ ("\\btelnet\\b", device_family_access)
    ∷ ("\\bconsole port\\b", device_family_access)
    ∷ ("\\bserial (?:console|port)\\b", device_family_access)
    ∷ (
      "\\blog ?(?:in|into) (?:to )?(?:the )?(?:device|switch|node|router|leaf)[a-z0-9-]*\\b",
      device_family_access,
    )
    ∷ ("\\bopen ?(?:a )?(?:shell|session) (?:on|to|into|with)\\b", device_family_access)
    ∷ ("\\bdevice session\\b", device_family_access)
    ∷ (
      "\\brun(?:s|ning)? (?:a |the )?(?:command|cli|script) (?:on|at|against|on)",
      device_family_action,
    )
    ∷ ("\\bexec(?:ute)?s? (?:a |the |a single )?(?:command|cli|script)\\b", device_family_action)
    ∷ (
      "\\breboot(?:s|ing)? (?:the )?(?:switch|device|node|leaf|router)[a-z0-9-]*\\b",
      device_family_action,
    )
    ∷ (
      "\\breload(?:s|ing)? (?:the )?(?:switch|device|node|leaf|router|config)[a-z0-9-]*\\b",
      device_family_action,
    )
    ∷ ("\\bjust (?:fix|patch|change|update|reboot|reload)\\b", device_family_action)
    ∷ (
      "\\bdirectly (?:on|to|into) (?:the )?(?:device|switch|node|leaf|router)[a-z0-9-]*\\b",
      device_family_action,
    )
    ∷ ("\\bpush(?:es|ing)? (?:the )?config(?:uration)?\\b", device_family_config)
    ∷ ("\\bconfig (?:push|write)\\b", device_family_config)
    ∷ (
      "\\bwrite(?:s|ing)? (?:the )?(?:config|configuration|vlan|interface) (?:to|onto|on)",
      device_family_config,
    )
    ∷ ("\\brestconf\\b", device_family_protocol)
    ∷ ("\\bnetconf\\b", device_family_protocol)
    ∷ ("\\bgnmi\\b", device_family_protocol)
    ∷ ("\\bg?rpc dial\\b", device_family_protocol)
    ∷ ("\\bsnmpset\\b", device_family_protocol)
    ∷ ("\\bansible\\b", device_family_protocol)
    ∷ []

-- Each pattern with the property it names and the reason.
abbrev pub unsupported_feature_patterns : List (String × (String × String))
unsupported_feature_patterns =
    ("\\btraffic engineering\\b", ("tePolicy", "traffic engineering (TE) policy"))
    ∷ ("\\bte[- ]policy\\b", ("tePolicy", "traffic engineering (TE) policy"))
    ∷ ("\\bte[- ]path\\b", ("tePolicy", "TE explicit path"))
    ∷ ("\\bexplicit path\\b", ("tePolicy", "TE explicit path"))
    ∷ ("\\bsid list\\b", ("tePolicy", "SID list"))
    ∷ ("\\bpin(?:ning)? the flow\\b", ("tePolicy", "pinned flow"))
    ∷ ("\\bpseudowire oam\\b", ("pseudowireOAM", "pseudowire OAM"))
    ∷ ("\\bpw oam\\b", ("pseudowireOAM", "pseudowire OAM"))
    ∷ ("\\bcontrol word\\b", ("pseudowireOAM", "pseudowire control word"))
    ∷ ("\\bmulticast\\b", ("multicastVPN", "multicast VPN"))
    ∷ ("\\bpim\\b", ("multicastVPN", "PIM multicast"))
    ∷ ("\\bmsdp\\b", ("multicastVPN", "MSDP peering"))
    ∷ ("\\bservice chain\\w*", ("serviceChain", "service chaining"))
    ∷ ("\\bchained services?\\b", ("serviceChain", "chained services"))
    ∷ ("\\bcomplex qos\\b", ("complexQoS", "complex QoS"))
    ∷ []

abbrev pub device_family_suggestions : List (String × String)
device_family_suggestions =
    (
      device_family_access,
      "describe the service you want on that device and I will provision it declaratively — e.g. 'extend vlan 100 as a mac-vrf across <siteA> <portA> and <siteB> <portB> for tenant <tenant>'. The control plane reconciles the devices; no one logs in for you or on your behalf.",
    )
    ∷ (
      device_family_config,
      "state the desired service state instead of the configuration write — e.g. 'give tenant <tenant> an ip-vrf carrying 10.50.0.0/24 on <siteA> wan1'. The fabric controllers apply the resulting configuration through reconciliation.",
    )
    ∷ (
      device_family_protocol,
      "name the service, not the protocol — e.g. 'apply an acl on <siteA> ethernet1 for tenant <tenant>: permit ingress tcp port 443 from 10.0.0.0/24, deny everything else'. This tier expresses services as declarative intent only; device protocols are the control plane's business.",
    )
    ∷ (
      device_family_action,
      "state the desired outcome as a service request — e.g. 'provision a vlan 120 on <siteA> ethernet1 for tenant <tenant>'.",
    )
    ∷ []

abbrev pub unsupported_property_suggestions : List (String × String)
unsupported_property_suggestions =
    (
      "tePolicy",
      "provision the same endpoints as a plain mac-vrf or ip-vrf — traffic engineering is not expressible in this fabric, but the service itself is provisionable without it.",
    )
    ∷ (
      "pseudowireOAM",
      "provision the L2 service as a mac-vrf without OAM — the fabric delivers the L2 connectivity; OAM signaling is not part of the contract.",
    )
    ∷ (
      "multicastVPN",
      "provision the unicast services your multicast use case needs (ip-vrf or mac-vrf between the relevant endpoints) — multicast is not supported.",
    )
    ∷ (
      "serviceChain",
      "provision the individual services as separate declarative requests — chaining is not expressible in this fabric.",
    )
    ∷ (
      "complexQoS",
      "provision the service with a standard SLA class — complex QoS engineering is not part of the contract.",
    )
    ∷ []

abbrev pub construct_token : String
construct_token = "\\b(vlan|mac[- ]?vrf|ip[- ]?vrf|acl)\\b"

abbrev pub vlan_as_its_own_service : String
vlan_as_its_own_service = "\\b(?:a|an|the|another|new|second)\\s+vlan\\b"

abbrev pub acl_attached_to_a_service : String
acl_attached_to_a_service =
    "\\b(?:with|bearing|carrying|including|under|behind)\\s+(?:an?\\s+|the\\s+)?(?:\\w+\\s+){0,2}?acl\\b"

abbrev pub deployment_status_query : String
deployment_status_query =
    "(?:status of (?:the |my |this |our )?(?:deployment|deploy|provisioning|service|network|request)|(?:deployment|provisioning|service|network) status|what(?:'s| is| was) the status|(?:did|has) (?:it|the deployment|the service|the network) (?:deploy|converge|complete)|is (?:it|the deployment|the service|the network) (?:deployed|ready|up|converged|done|live)|(?:did|has) it (?:deployed|worked|succeeded))"

abbrev pub fallback_informational : String
fallback_informational =
    "^\\s*(?:what|which|who|where|when|why|how|can|could|do|does|is|are|show|list|describe|explain|help)\\b"

abbrev pub fallback_provision_action : String
fallback_provision_action =
    "\\b(?:provision|create|set\\s*up|deploy|add|need|want|extend|give|apply)\\b"

abbrev pub fallback_service_type : String
fallback_service_type = "\\b(?:vlan|mac[- ]?vrf|ip[- ]?vrf|acl)\\b"

abbrev pub srv6_name_patterns : List String
srv6_name_patterns =
    "\\bsrv6\\b" ∷ "\\bsegment[ -]routing v6\\b" ∷ "\\bsegment[ -]routing over ipv6\\b" ∷ []

abbrev pub clarification_hint : String
clarification_hint =
    " Constructs: vlan (local broadcast domain), mac-vrf (L2VNI over EVPN), ip-vrf (routed instance with L3VNI), acl (filter bound to service ports) — each between named attachment points for one tenant. Example: 'Extend vlan 100 as a mac-vrf across leaf01 ethernet2 and leaf02 ethernet2 for tenant acme'."
