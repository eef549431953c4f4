-- ===== src/Lib.antt =====
-- baetyl-cloud: the management side of an edge platform. Nodes at the edge, the applications that
-- they run, and the configurations and secrets that these mount are stored in a database. A node's
-- shadow holds what it desires to run and what it reported. The services keep three things in
-- step: the resources, the index tables that relate resources to one another, and the desires.
--
-- Parts, from the bottom up:
--   Common        Boolean tests, lists, maps as association lists (Dict), and Action: code that
--                 changes a store and answers, fails with an error or panics. What was written
--                 before an error stays written.
--   Spec          the types of baetyl-go's spec/v1 with the fields that the code reads; its
--                 methods on desires and reports, and its label selectors, are the parameter
--                 DesireApi, with the laws DesireLaws where a theorem needs them.
--   Plugin        the interfaces of plugin/, which the services call; Plugin/Contract states what
--                 the services rely on of the index plugin.
--   Database      plugin/database/: db.go (transactions), Index for index.go, Tasks for task.go,
--                 Shadows for shadow.go, Configs for configuration.go, Nodes for node.go, Apps for
--                 application.go, Secrets for secret.go, Modules for module.go, Locks for lock.go.
--                 Keyed has the tables of rows with a namespace and a name. The server's
--                 errors are a schedule in the connection: each statement takes the next entry.
--   Triggers      triggerfunc/trigger.go: the cache of reports behind the shadow store.
--   Models        models/filter.go (paging, over 64-bit words) and models/shadow.go.
--   Service       service/: Index for index.go, App for application.go, Config for config.go and
--                 secret.go, Node, NodeOps and NodeOps/Reporting for the matching, the operations
--                 and the reports of node.go, Listing for its lists and caches, Quota for
--                 quota.go, Sync for sync.go, System for system_app.go, System/Init for init.go.
--   Facade        facade/: Apps for application.go, Versions for config.go and secret.go. It calls
--                 the services through the record Services and transactions through the record
--                 TransactionFactory; Facade/Transactions states the laws of the latter.
--   Api           api/application.go: the requests on applications. They call the services and the
--                 facade through the record AppServices, which also holds what they use of libraries.
--   Tests         the theorems at concrete inputs, and runs of the code.
--
-- A function keeps its Go name in snake_case: RefreshIndex is refresh_index, validName is
-- valid_name. A method's receiver becomes parameters: the plugins that its struct holds. A nil
-- pointer or map is `none`; an object that Go changes in place is returned changed. A transaction
-- handle that is only passed on is part of the store.
--
-- Loops are recursion on the list they walk. On fuel are the swap of reverseLieNodeSlice, which is
-- given the length of the slice, and the batches of ListShadowByNamesTx, which are given the number
-- of names: each batch takes at least one.
--
-- A query without ORDER BY is taken to give its rows in the order of their insertion, which SQL does
-- not promise; the theorems on listings rest on it where they speak of order. The facade's crons
-- are written on a connection of their own, so they stand beside its transactions.
--
-- Not modelled: the other HTTP handlers in api/ and server/, the Kubernetes plugins in plugin/kube,
-- the object store, PKI, signing and decryption plugins, which wrap other systems; and the remaining
-- tables of plugin/database. Logging has no effect on the store and is left out. A goroutine is
-- handed to a parameter that may run it at once.
pub mod Common
pub mod Database
pub mod Spec
pub mod Plugin
pub mod Models
pub mod Service
pub mod Facade
pub mod Api
pub mod Triggers
pub mod Tests
