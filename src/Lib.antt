-- ===== src/Lib.antt =====
-- theta-directory: a directory server for several sites, its access model and its mesh.
--
-- The program is the Node.js application under nodejs/. An LDAP server and a SQL database hold its
-- data; each site runs a copy, one of which is the master. What stands here is the logic that does
-- not depend on either server.
--
-- Base holds texts (lists of UTF-16 code units), lists and maps over the native numbers, results
-- of functions that throw, and their lemmas. A JavaScript `Map` or header object is an association
-- list in insertion order. An undefined or null text is the empty one where the code treats both
-- alike, and `none` where it does not. Lower-casing and the character classes are those of ASCII.
--
-- Groups: nodejs/utils/groups.js. The names of the permission groups, and `hasPermission` as
--   `has_permission`; its one recursive call, at `admin`, is `permission_step` called twice.
-- Virtual: nodejs/utils/virtual_groups.js. `parseGroupCn` and `postFilterEntries`. The rewriting of
--   a filter by `interceptVirtualGroups` works on objects of the ldapts library and is left out.
-- Inheritance: nodejs/services/access_inheritance.js. `effectiveGrants` with its queue as `run`, on
--   fuel: the number of grants and four times that of the edges, since a child is queued again only
--   at a higher of five ranks. A level named like a member that every object has, as `constructor`,
--   is taken as any other unknown one. `inheritanceSources` is left out.
-- Catalog: the resources, their metadata, and what is decided about them.
--   Catalog.Subtype: nodejs/services/subtype_templates.js; the cache of templates is an argument.
--   Catalog.Projection: nodejs/services/access_projection.js. `accessibleResources`, which uses
--   Groups, Inheritance and Catalog.Subtype; its first loop is `reach_all`, its second `follow_all`.
--   Catalog.Matcher: nodejs/services/resource_matcher.js. `findExistingMatch` and its four tiers.
--   Catalog.Lifecycle: nodejs/services/discovery_reconciler.js. `forgetSource` and
--   `garbageCollect` on the tables of resources, edges and group links. Database errors, which the
--   code swallows, and the webhooks are left out.
--   Catalog.Rollup: nodejs/models/resource.js. `getGraph`: `roll` is both `getStatus` and
--     `getEnvironment`, which differ in the rank and in the source that the first names, on fuel: a
--     visit enters each row once. `tags_of` is `getTags`. Members of Object.prototype as names of a
--     state, and the stamp of the last update, are left out.
--   Catalog.Ancestors: nodejs/models/resource.js. `findAncestorSiteSlug`, `findAllAncestors`,
--     `withResolvedAddress` and `withCatalogStatus`. Each name is visited once, which bounds the fuel.
-- Agents: the agents that run on the hosts.
--   Agents.Live: nodejs/utils/agent_manager.js, its map of live sockets. A `Fleet` holds the open
--     sockets beside it; `Step` is what may happen next, in any order.
--   Agents.Services: nodejs/utils/agent_manager.js, `pruneServicesNotReported`; database errors are
--     left out.
--   Agents.Binding: nodejs/utils/agent_binding.js. Agents.Site: nodejs/utils/agent_site.js.
--   Agents.Rows: nodejs/models/agent.js; the hash of a token is an argument. Agents.Connect: how
--     nodejs/routes/api_agent.js admits a connection, up to the moment that it is registered. A
--     `Call` of the database may fail, by an argument, and a taken slug is refused; reads whose
--     errors the code swallows, and the write of the last contact, are taken to succeed.
--   Agents.Iam: nodejs/utils/agent_iam.js, on Groups, Inheritance and Catalog.Ancestors.
-- Mesh: the WireGuard mesh between the sites.
--   Mesh.Addressing: nodejs/utils/mesh_addressing.js, for ids and indices that are numbers.
--   Mesh.Route: nodejs/utils/mesh_route.js.
--   Mesh.Client: nodejs/utils/mesh_clients.js with the rows of nodejs/models/mesh_client.js; the
--   tables are a `Store`, and new ids, keys and times an argument.
--   Mesh.Conf: nodejs/utils/mesh_client_conf.js without the printed file.
--   Mesh.Roster: nodejs/utils/mesh_roster.js with the rows of nodejs/models/mesh_site.js, without
--   its HTTP calls.
-- Mutex: nodejs/utils/mutex.js. The table of locks is explicit; `Step` is what the event loop may
--   run next (a call, its resumption, its end, its timeout), in any order, so also in those orders
--   that a real run does not show.
-- Ldif: nodejs/utils/ldif.js, whole; the base64 decoder is an argument. An attribute `constructor` or
--   `__proto__`, which every object has, throws as it does there.
-- WriteProxy: nodejs/middleware/spoke_write_proxy.js up to the call of the master (`decide`); the
--   token stores, the clock and the HMAC are arguments. Its regular expressions are spelt out over
--   `strip_prefix` and `split_first`. WriteProxy.Redirect is nodejs/utils/fetch_with_auth_redirect.js
--   and WriteProxy.Signature nodejs/utils/forwarded_auth_hmac.js.
-- Promotion: nodejs/utils/site_promote.js (`adoptRows`), with the free server ids of
--   nodejs/utils/ldap_replication.js and the rows of nodejs/models/site_spoke.js. The loop that steps
--   past used ids has as much fuel as there are ids in use. Errors of the database are left out.
-- Ldap: the replication of a site's LDAP server. Ldap itself: `desiredConfig` and the write of
--   `onePass` in nodejs/utils/ldap_reconcile.js, and the addresses of nodejs/utils/ldap_replication.js;
--   the request to the master is an argument. Ldap.Loop: the loop of `reconcileReplication` and the
--   events that it meets; the cluster is known by the number of its changes, and a pass may get no
--   view of it or fail to apply one. Ldap.Delta: `applyReplicationConfig` of
--   nodejs/utils/ldap_runtime_config.js; a `Modification` is one `replace`, and what the server does
--   with it an argument. Ldap.Drift: the drift report.
-- Tokens: nodejs/models/token.js, the codes of `OtpToken`, one call after the other: `verify` reads
--   the rows and writes them in two steps, and calls that overlap are not modelled. Tokens.Api:
--   nodejs/models/api_token.js; the hash and the comparison of bcrypt are arguments.
-- Permission: nodejs/utils/permission.js; the groups of a user, which the LDAP server resolves, and
--   the owners of a group are arguments.
--
-- The other HTTP routes, the scheduler, the plugins, the vault and the web pages are glue and input or
-- output, and are not modelled.
pub mod Base
pub mod Groups
pub mod Tokens
pub mod Virtual
pub mod Inheritance
pub mod Mesh
pub mod Catalog
pub mod Agents
pub mod Mutex
pub mod Ldap
pub mod Ldif
pub mod WriteProxy
pub mod Promotion
pub mod Permission
