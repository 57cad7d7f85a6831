-- ===== src/Lib.antt =====
-- private-dns-operator: an operator that renders private DNS zones into the ConfigMap of CoreDNS.
--
-- The program watches PrivateDNSZone and PrivateDNSRecord objects (api/v1alpha1). For each reconcile it
-- collects the records of every zone and checks them (internal/dns/record.go), renders zone files and a
-- managed block of the Corefile (internal/dns/render.go, internal/coredns/corefile.go), and writes them
-- into a cluster in five steps (internal/controller/privatednszone_controller.go), by way of the edits
-- of the ConfigMap and of the Deployment in internal/coredns.
--
-- The files, and the code that each is about:
--   Prelude      shared names, lists, integers
--   Text         byte strings and the functions of strings, strconv and sort that the code calls
--   Net          net.ParseIP, IP.To4 and the test that strconv.Atoi makes
--   Kube         the objects of Kubernetes as far as they are read or written, and errors
--   Kube/Api     the client: a state of a cluster with a script of faults
--   Kube/Machinery  what internal/controller calls of apimachinery, as parameters with laws
--   Types        api/v1alpha1/privatednszone_types.go and privatednsrecord_types.go
--   Dns          internal/dns: Domain (NormalizeZone, FQDN, validateDomain), Record (ValidateRecord,
--                validateValue), RecordSet (ValidateRecordSet, ValidateRecords, DeduplicateAndSort),
--                Render (render.go: nextSerial, ZoneFileKey, RenderZone, relativeName, renderValue)
--   Coredns      internal/coredns: ConfigMap (configmap.go), Deployment (deployment.go), Corefile and
--                Templates (corefile.go: PatchCorefile, ExtractZoneBlocks, groupTemplateRecords)
--   Controller   internal/controller: Conditions (conditions.go), and of
--                privatednszone_controller.go Keys (mapKeys, subtractKeys, unionKeys, removeString),
--                Records (recordsForZone), Outcomes (newRecordOutcomes, markZoneRecordsNotReady),
--                Results (zoneResult, failedResult, combinedHash), Zones (the loop of Reconcile over
--                the zones, holdLastKnownGood), Statuses (writeZoneStatuses, writeRecordStatuses),
--                Commit (commitCoreDNS, setVolumeItems) and Reconcile (Reconcile,
--                reportCoreDNSUnavailable, releaseDeletedZones)
-- A module's children hold what is proved of it; modules named Tests hold concrete runs.
--
-- How the code is read:
--   - A string is the list of its bytes, in ASCII: ToLower, TrimSpace, Fields and the verb %q are
--     those functions on ASCII text. `codes` turns a literal into a list.
--   - A Go map is an association list of which the first entry of a key counts. No function depends on
--     the order in which a map is ranged over, but DeduplicateAndSort, which takes the order as an
--     argument. A nil map is an empty one.
--   - sort.Strings and sort.Slice are a stable insertion sort; ValidateRecordSet ranges over a sorted
--     list of keys, and the loops over a list are structural recursion, so there is no fuel but in the
--     printing of numbers, where a number is its own bound on the digits.
--   - An object that a method mutates in place is taken and returned; the Boolean result of a setter
--     goes along with it.
--   - A call of the client is fine, refused without an effect, or lost, which is carried out and then
--     reported as an error. A world holds the script of these faults. An operator that dies is one
--     whose remaining calls are all refused. A conflict of versions is a refused call. Nothing else
--     writes to the objects during a reconcile.
--   - An update of a zone leaves its status alone and a status patch all else. A zone whose last
--     finalizer is taken away stays in the list; that the API server collects it is not modelled.
--   - SetStatusCondition, RemoveStatusCondition and Semantic.DeepEqual of apimachinery are parameters.
--     What is assumed of them is a record of laws, which Kube/Machinery/Concrete.antt fills.
--   - A clock gives the day on which each zone is rendered and the time at which a condition of a type
--     is set on an object; nothing is assumed of it.
--   - The files that CoreDNS reads for a Corefile are a parameter `names` of the theorems that need it.
--   - The SHA-1 digest is a parameter: any function from texts to texts.
--   - time.Time is its day in UTC, of a year below 10000.
--   - Log lines are left out.
-- Not modelled: SetupWithManager, which registers the watches with controller-runtime, the wiring in
-- cmd/main.go, and generated code.
pub mod Prelude
pub mod Text
pub mod Kube
pub mod Net
pub mod Types
pub mod Dns
pub mod Coredns
pub mod Controller
