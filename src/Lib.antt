-- ===== src/Lib.antt =====
-- The otterscale operator: a Kubernetes operator with two controllers and one webhook.
--
-- A Workspace gives a group of users a namespace. Its controller makes the namespace, the role
-- bindings of the members, a resource quota, a limit range, and the objects that isolate the
-- network, either a NetworkPolicy or, where Istio is installed, a PeerAuthentication and an
-- AuthorizationPolicy. The webhook keeps the labels of the members on the Workspace and decides who
-- may change it. A Module installs the contents of a ModuleTemplate, a Flux HelmRelease or
-- Kustomization, and cleans it up through a finalizer when it is deleted.
--
-- Parts, and the files that they are modelled on:
--   Api          api/tenant/v1alpha1/workspace_types.go, api/addons/v1alpha1/module_types.go and
--                moduletemplate_types.go; the metadata of Kubernetes (Meta) and what is written of
--                the kinds of others (Owned), as far as the operator reads or writes it
--   Labels       internal/core/labels/labels.go
--   Workspace    internal/core/workspace: Namespace (namespace.go), RoleBindings (rbac.go),
--                Constraints (resource_constraints.go), Network (network_isolation.go; whom it lets in is in
--                Network.Admission),
--                Authorization (authorization.go), Helpers (helpers.go); Spec says apart from these
--                what a Workspace asks for
--   Tenant       internal/controller/tenant: Reconcile and Status (workspace_controller.go),
--                Detector (istio_detector.go); the theorems are in Sync, Frame, Managed, Tenancy and
--                Access and in the children of the parts
--   Module       internal/core/module: helpers.go, and in Flux helmrelease.go and kustomization.go;
--                Spec says apart from these what a Module asks for
--   Addons       internal/controller/addons/module_controller.go: the template, Cleanup, Status,
--                Reconcile and Watches; the theorems are in Laws, Frame and Leftovers and in the
--                children of the parts
--   Webhook      internal/webhook/tenant/v1alpha1/workspace_webhook.go
--   Controller   what both controllers use: the recorder, the text of errors, the order of
--                conditions
--   Entry        cmd/main.go: flags and options of the servers (Options), the calls by which the
--                process starts, and what the SetupWithManager functions watch (Controllers); the
--                theorems are in Laws, Wiring, Watches and Quiet
--   DeepCopy     the zz_generated.deepcopy.go of api/tenant/v1alpha1 (Tenant) and of
--                api/addons/v1alpha1 (Addons) on a memory (Structs, Memory); Externals are the structs
--                of other packages with their deep copies, ExternalLaws what is relied on of those;
--                the theorems are in Objects, and Holds says what a value in memory stands for
--   System       runs of both controllers, in any order, between the writes of others, from the point
--                of view of a Workspace and, in ModuleRuns, of a Module
--   Kube         what the operator calls of client-go, controller-runtime and apimachinery, as a
--                record that is a parameter of all the rest, over an unknown state of the cluster;
--                Kube.Laws names what is relied on of it, and Kube.Progress the deletes and patches of a
--                healthy cluster
--   Common       library names, Go maps (Dict), lists by position (Lists), and functions that change a
--                state and may fail (Exec)
--   Tests        an instance of Kube that meets the laws, and the theorems at concrete inputs
--
-- Correspondence. A Go function keeps its name, in snake case. A call that may change the cluster is
-- `Exec K.State A`: what was written before an error stays written. A nil pointer or map is `none`.
-- A reconcile ends with `ok tt` (no retry) or `err` (retry with backoff). A call through a nil
-- interface is the error `nil_dereference`, which leaves every function. The two readings of the
-- flag of the Istio detector in one reconcile are two arguments. All loops of the source are over
-- lists and are structural recursions, so no fuel is needed. An ObjectMeta has the fields that are
-- read or written; a foreign spec that is only passed on is a `Document`. But for the deep copies, an
-- object is a value, which no write to another object can change.
--
-- In DeepCopy a struct has addresses for its pointers and slices. DeepCopyInto is the function from
-- `*in` to what it leaves in `*out`, and what it takes and writes besides is in the memory. A slice
-- covers its whole array; a read of nothing is a panic. Of a struct of another package it is known
-- what it holds at the addresses of a region, where what nobody can write need not be counted.
--
-- The laws of the client describe an API server to which no other client writes during a reconcile,
-- and which keeps what it is sent, but for defaults and the label kubernetes.io/metadata.name of a
-- namespace; no law says that it admits an object. Owners are told apart by name, as
-- SetControllerReference does it. Between reconciles the runs of System let others write. The
-- response of a patch is left open. Of controller-runtime, the start of the process sees whether
-- each call fails, and the calls are recorded in their order.
--
-- Not modelled: the parsing of flags, the registration of schemes and the queue of controller-runtime;
-- log lines; the CRD validation that the markers on the API types ask for; the tests.
pub mod Common
pub mod Api
pub mod Kube
pub mod Labels
pub mod Workspace
pub mod Controller
pub mod Tenant
pub mod Webhook
pub mod Module
pub mod Addons
pub mod DeepCopy
pub mod Entry
pub mod System
mod Tests
