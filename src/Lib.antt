-- ===== src/Lib.antt =====
-- Verification library of the robot maintenance dashboard.
--
-- The dashboard is a browser application: one state object (assets/js/modules/dashboard/controllers/
-- dashboardController.js) that the files of controllers/runtime/ read and change, and components with
-- a state of their own, of which the workflow recorder is the largest. The library models the logic
-- that decides what these states become, without the page.
--
-- Files, and the code that they model:
--   Prelude        shared names; lists, dictionaries (`Map`, objects) and sets in insertion order
--   Js             decoded values, numbers, texts, `trim`, `includes`; Js/Engine: what the code asks of
--                  the engine (number formats, case tables, JSON printing) as an argument
--   Normalize      assets/js/lib/normalize.js
--   Recorder       assets/js/components/workflow-recorder-component.js: Token (`normalizeToken`, the
--                  list parsers), Draft and Blocks (the state and its methods), Publish
--                  (`buildTestDefinition`); the other children prove what they do
--   Fleet          the robots of `state.robots`, `robotId`
--   Activities     dashboardRuntimeFleetView.js: `setRobotTesting`, `setRobotSearching`,
--                  `setRobotFixing`, `setRobotSearchingBulk` and the countdown interval; Automated:
--                  `syncAutomatedRobotActivityFromState`; Reload: `refreshRobotsFromBackendSnapshot`
--   Definitions    dashboardRuntimeMonitorConfig.js and config/app-defaults.js: robot types, test
--                  definitions, fixes, test tables
--   Runtime        dashboardRuntimeDataInit.js: the entries of a delta; Merge:
--                  `mergeRuntimeRobotsIntoList`; Syncing: `refreshRuntimeStateFromBackend`
--   OnlineCheck    dashboardRuntimeFixTests.js: `runOneRobotOnlineCheck`, `runOnlineCheckForAllRobots` up to
--                  its request; Answers: from the answer on
--   Results        dashboardRuntimeFixTests.js: `updateRobotTestState` and the debug results
--   Selection      dashboardRuntimeFleetView.js and dashboardRuntimeFixTests.js: filters, counts,
--                  selection, the targets of a run
--   Page           the state that the runs change, and what the rest of the page does while they wait
--   Workers        the queue of `runAutoFixCandidate` and `runManualTests`, as steps of its workers
--   Fixes          dashboardRuntimeFixTests.js: the candidates of fix mode; Fixes/Run:
--                  `runAutoFixForRobot`
--   TestRuns       dashboardRuntimeDetailShell.js: `runManualTests`, with `runRobotTestsForRobot`
--   Routes         dashboardRuntimeDetailShell.js and dashboardRuntimeDataInit.js: the views, the tabs of
--                  the management page, `setLocationHash`, `routeFromHash`, the listener of `hashchange`
--   Monitor        dashboardRuntimeMonitorConfig.js: the limits of the configuration; Monitor/Parallelism:
--                  `syncMonitorParallelismWithFleet`; Monitor/Applying: `applyMonitorConfig`,
--                  `loadMonitorConfig`; Monitor/Refresh: `syncAutoMonitorRefreshState` of
--                  dashboardRuntimeFleetView.js
--   ModelAssets    assets/js/modules/dashboard/primitives/model-viewer/modelAssetResolver.js: the
--                  candidates; Resolving: `urlExists`, `resolveModelUrl`; Viewer: `bindModelViewerSource`
--   Manage         dashboardRuntimeManageRecorder.js: `normalizeIdList`, `applyRunAtConnection`,
--                  `inferUniformRunAtConnection`, `applyRecorderMappings`; Flags: the checks in
--                  the editor of a test; Saving: saving and deleting definitions; Loading:
--                  `loadDefinitionsSummary`
--   Forms          dashboardRuntimeDetailShell.js: the forms of robots and robot types, the bug report
--   Terminal       assets/js/components/robot-terminal-component.js: the badge and the controls; State (the
--                  component), Stream (sockets and their handlers), Session (requests), View (toolbar,
--                  fallback, `dispose`), Flows (`connect`, `runCommand`, `_reconnectSession` and what
--                  waits in them), Events (everything that happens, in any order)
--   Examples       the theorems applied to concrete data
--
-- How the parts interact: the runtime synchronisation and the online check change robots and
-- activities; both respect the activities of this page, which `Activities` keeps. A request is two
-- steps, up to the request and from its answer on, with the answer of the backend as an argument, so
-- that everything may happen between them. A run of tests or of a fix waits several times: it takes what
-- the rest of the page does during its n-th wait as an argument, so that its theorems hold for every
-- interleaving. The workers of a run, the events of the address, the requests of the monitor's
-- parallelism, the requests of the runtime state, the bindings of a viewer and the events of a terminal
-- are step relations, with theorems on every sequence of steps.
--
-- Conventions. A finite number is a whole number of thousandths, so milliseconds and seconds are exact
-- where the code only adds and compares. A field that is missing or `undefined` is `none` where the
-- code can tell. A method that throws gives the message and leaves the state alone. `_nextSaveAs` is a
-- loop without a bound: it runs here on one unit of fuel more than there are write blocks, which is
-- proved to be enough. The polling of a fix is structural recursion on the answers
-- that arrive. A call of the terminal that awaits is kept as a flow, which goes on in any later state
-- that has the awaited value; sockets and requests are numbered, and the references to them are the
-- numbers, so that old ones and new ones are told apart. Keys of objects keep the order of insertion.
--
-- Not modelled: rendering, the escape codes of the terminal's lines, timers and requests themselves, the
-- running estimate of an online check (an average in floating point), sorting by locale, the
-- rendering of forms and lists, and the backend.
pub mod Prelude
pub mod Js
pub mod Normalize
pub mod Recorder
pub mod Fleet
pub mod Activities
pub mod Definitions
pub mod Runtime
pub mod Results
pub mod Selection
pub mod Page
pub mod Workers
pub mod TestRuns
pub mod Routes
pub mod Monitor
pub mod ModelAssets
pub mod Manage
pub mod Fixes
pub mod Examples
pub mod OnlineCheck
pub mod Terminal
pub mod Forms
