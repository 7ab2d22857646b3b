-- ===== src/Lib.antt =====
-- KubeNetLab (KNL): a Kubernetes operator that turns a Lab, a list of nodes and of links between them,
-- into the pods, virtual machines and layer-2 networks of a network lab.
--
-- The parts of the program and the files that model them:
-- - Mac: the MAC addresses that the operator derives (api/v1beta1/common.go, DeriveMac).
-- - Alloc: free VxLAN identifiers and bridge indices (api/v1beta1/link.go, GetAvailableVNIs and
--   GetAvailableBrIndex), over an interface to the bit set that the program imports, with a simple
--   implementation of it by lists.
-- - Names: what a node's name says of it, and the names of the objects that are created
--   (api/v1beta1/system.go, srvm_common.go, common.go, link.go).
-- - Fill: the reflective FillNilPointers (api/v1beta1/common.go); LoadDef: the same walk at each API type,
--   and LoadDef (api/v1beta1/knlconfig_types.go), which applies it to the nodes of a lab.
-- - Api: the API types, OneOfSystem (api/v1beta1/node.go), the registry of node types and the
--   application's defaults.
-- - Chassis: cards and chassis of the SR node types (api/v1beta1/sr.go, srvm.go).
-- - Defaulter: the mutating webhook of a lab (internal/webhook/v1beta1/lab_webhook.go, Default). It uses
--   all of the above but Alloc: MAC addresses for the connectors, missing nodes and CPMs, a system for each node,
--   LoadDef, the defaults of each card, a slot for each connector, a MAC address for each chassis.
-- - Cluster: createIfNotExistsOrRemove, createIfNotExistsOrFailedOrRemove and IsOwnedbyLab
--   (api/v1beta1/k8s.go), over an interface to the client that the program imports, with a list of objects
--   as a simple implementation.
-- - Lans: the layer-2 networks of a lab: EnsureLinks (api/v1beta1/link.go), which uses Alloc and Cluster, and
--   deleteExternalResources (internal/controller/lab_controller.go).
-- - Config: the operator's configuration: the copy that its parts share (api/v1beta1/cfg.go), the object's
--   defaults (internal/webhook/v1beta1/knlconfig_webhook.go), its validation
--   (api/v1beta1/knlconfig_types.go) and its reconciler (internal/controller/knlconfig_controller.go), with
--   the steps of the API server around it.
-- - Validate: validation of a lab: LabSpec.Validate (api/v1beta1/node.go) with the Validate of each system
--   (api/v1beta1/srvm.go, srsim.go, srl.go, generalpod.go, vmpc.go) and of links (api/v1beta1/link.go), over
--   an interface to the parsers that the program imports.
-- - Vm: the virtual machine instance of a card of an SR VM (api/v1beta1/srvm_ensure.go, getVMI), with the
--   objects and paths around it (api/v1beta1/common.go); the addresses of a general virtual machine
--   (api/v1beta1/vmpc.go, cloudinit.go, parsed_lab.go).
-- - Kube: the resources of all kinds as the objects of one client, and the effects of a node's Ensure as
--   actions on its state (api/v1beta1/k8s.go, parsed_lab.go, common.go).
-- - Pods: the pods that nodes become: Ensure of SR Linux, SR-SIM and general pods (api/v1beta1/srl.go,
--   srsim.go, generalpod.go), GetNodeSortIndex (api/v1beta1/lab_types.go), and the loop over the nodes. It
--   uses Kube and the spokes that EnsureLinks fills.
-- - Reconcile: the lab reconciler (internal/controller/lab_controller.go, Reconcile), which puts the
--   finalizer, Lans and Pods together over the client of Kube.
-- - Sidecar: the hook that edits the domain of a virtual machine (kvirtsidecar/main.go, onDefineDomain).
-- - Text: what the program uses of Go's strings and strconv. Common: shared names and lemmas.
-- - Tests: runs on concrete inputs.
--
-- Conventions. A pointer is an Option, and reading a nil one is the outcome `panic` of Common.Results. A Go
-- map is an association list, whose order stands for the order in which a range loop visits the map. The
-- card map of a chassis is shared by copies of the chassis, so it is a reference into a store of card
-- maps that is passed along. Numbers are natural numbers, with Go's wrap-around written out; a
-- `resource.Quantity` is the text that it was parsed from. Every loop goes over a list or counts down; the
-- decimal printer of Text takes the number itself as fuel, which has at least as many units as digits.
--
-- Packages that the program imports are parameters: the client, the bit set, the parsers of validation, the
-- decoders of JSON and XML, `resource.Quantity`, the names of network attachments, YAML, the splitter of shell commands and the
-- finalizer functions of the controller library.
--
-- A value of a map of nodes, of links or of cards is taken to be there: a null one is not modelled.
--
-- Not modelled: the rest of a general virtual machine's instance, GeneralVM.Ensure and SRVM.Ensure (which
-- also writes files), which are a parameter of the reconciler, shells and consoles, the labels of LANs,
-- generated code and the entry points.
mod Common
pub mod Text
pub mod Mac
pub mod Alloc
pub mod Names
pub mod Fill
pub mod Api
pub mod Chassis
pub mod LoadDef
pub mod Defaulter
pub mod Cluster
pub mod Lans
pub mod Config
pub mod Validate
pub mod Sidecar
pub mod Vm
pub mod Kube
pub mod Pods
pub mod Reconcile
mod Tests
