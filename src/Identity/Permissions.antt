-- ===== src/Identity/Permissions.antt =====
-- The permission codes of identity/service.py.
use aiagent.Prelude.{String, List, ◌∷◌, []}

abbrev pub admin_role : String
admin_role = "organization_admin"

abbrev pub member_role : String
member_role = "member"

abbrev pub member_manage : String
member_manage = "organization:member:manage"

abbrev pub agent_use : String
agent_use = "agent:use"

-- `PERMISSION_DEFINITIONS`, in the order of its keys.
abbrev pub permission_definitions : List (String × String)
permission_definitions =
    ("agent:use", "Use the organization's Agent.")
    ∷ ("agent:manage", "Manage Agent definitions and runtime switches.")
    ∷ ("agent:view", "View the organization's managed Agents.")
    ∷ ("agent:draft:write", "Create and update Agent drafts.")
    ∷ ("agent:version:create", "Create immutable Agent versions.")
    ∷ ("agent:release", "Release and roll back evaluated Agent versions.")
    ∷ ("agent:release:bypass", "Bypass an Agent release gate with an audited reason.")
    ∷ ("eval:view", "View evaluation datasets, policies, and results.")
    ∷ ("eval:dataset:write", "Create and version evaluation datasets.")
    ∷ ("eval:run:create", "Run evaluations for immutable Agent versions.")
    ∷ ("eval:policy:manage", "Manage Agent evaluation gate policies.")
    ∷ ("audit:view", "View organization audit records.")
    ∷ ("organization:member:manage", "Manage organization members and roles.")
    ∷ ("connection:personal:create", "Create personal external connections.")
    ∷ ("connection:personal:disconnect", "Disconnect personal external connections.")
    ∷ ("connection:organization:manage", "Manage organization shared connections.")
    ∷ ("mcp-server:view", "View registered MCP servers.")
    ∷ ("mcp-server:manage", "Register and manage MCP servers.")
    ∷ ("tool:permission:use", "Use PermissionSystem MCP tools.")
    ∷ ("tool:erp:use", "Use ERP MCP tools.")
    ∷ ("tool:mes:use", "Use MES MCP tools.")
    ∷ ("tool:bi:use", "Use BI MCP tools.")
    ∷ []

-- The codes that `create_organization_in_session` gives the role of a member.
abbrev pub member_codes : List String
member_codes =
    "agent:use" ∷ "connection:personal:create" ∷ "connection:personal:disconnect"
    ∷ "mcp-server:view" ∷ "tool:permission:use" ∷ "tool:erp:use" ∷ "tool:mes:use" ∷ "tool:bi:use"
    ∷ []

-- `TOOL_PERMISSION_BY_SYSTEM`.
abbrev pub tool_permission_by_system : List (String × String)
tool_permission_by_system =
    ("permission-system", "tool:permission:use")
    ∷ ("permission", "tool:permission:use")
    ∷ ("erp", "tool:erp:use")
    ∷ ("kingdee", "tool:erp:use")
    ∷ ("mes", "tool:mes:use")
    ∷ ("bi", "tool:bi:use")
    ∷ []
