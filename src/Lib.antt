-- ===== src/Lib.antt =====
-- The user interface of TraceGraph: the single-page app and the React site that the module
-- tracegraph-ui serves from tracegraph-ui/src/main/resources/META-INF/resources/tracegraph/ui.
--
-- The program has two front ends that read the same server. `app.js` is a vanilla app with a hash
-- router: each hash opens a view, a view asks the server by `apiFetch` and writes the markup of the
-- answer into one element. `src/*.jsx` is a React site: a shell routes the hash to a page, and the
-- pages show the tables of `src/data.jsx`. The server is written in Java: its answers are arguments of
-- the definitions, and of it the comparison of two executions, the depth of a graph and the loops of retries are
-- modelled.
--
-- Base: native numbers, lists and texts, with the operations of the language on them. A text is a
--   list of code points.
-- Value: the values of the language (`Js`), their tests and `String`; Value/Print is
--   `JSON.stringify`.
-- Spa: app.js.
--   Spa/Escape: `esc`. Escape/Laws reads an escaped text as the browser does, Escape/Attribute an
--     attribute.
--   Spa/Template: template literals as lists of pieces; Template/Brackets counts their angle brackets.
--   Spa/Api: `apiFetch`; Spa/Router: `route` on the hash that the browser gives, and the hashes that
--     the app writes; what the browser makes of a written hash is an argument. Spa/Nav:
--     `setActiveNav`; Spa/Platform: what
--     the app takes from the browser (dates, `toFixed`, `JSON.parse`, sums of other numbers), as a
--     record that the definitions take.
--   Spa/Steps: the fields of a step and `duration`; Spa/StateDiff: `prettyJson`, `renderStateDiff`.
--   Spa/TraceList, Spa/TraceView (with TraceView/Replay), Spa/GraphView, Spa/DiffView: the views
--     `renderTraceList`, `renderTrace`, `renderGraph`, `renderDiff` and `loadDiff`, each as the
--     markup that it ends with, by the results of its requests. `none` is a TypeError.
--   Spa/Session: the screen over time, as a step relation of navigation and answers. Spa/Toast:
--     `showToast` with the browser's timers, one millisecond after the other.
-- Site: src/*.jsx. A component is a function to the tree of elements that it returns.
--   Site/Markup: the elements, attributes and click actions; Markup/Tree reads the links, the actions
--     and the nesting of a tree. Site/Drawing: the halves and quarters in coordinates.
--   Site/Shell: `parseRoute`, `useTheme` and the routes of app.jsx, `NAV` and the theme button of
--     header.jsx, as a state with events, each with whether its render commits. Site/Header and Site/Footer: the bars around each page.
--   Site/Highlight: `highlightJava` of data.jsx, each regular expression as one scan of the text.
--   Site/Primitives: the classes of ui.jsx, the icon keys of icons.jsx, the links of footer.jsx;
--     Primitives/Elements: `Icon`, `Button`, `Badge`, `CodeBlock` and the other elements of ui.jsx;
--     Primitives/IconEffect: the drawing of an icon.
--   Site/Home: home.jsx, with a module for each group of its sections.
--   Site/Explorer: trace.jsx. Explorer/Data has the tables of the run and the graph, Explorer/Graph
--     the styles of nodes and edges, Explorer/Runs the list of runs, Explorer/Logs the log,
--     Explorer/Selection the clicks; Explorer/Panels, Timeline, Inspect and GraphView the panels, and
--     Explorer/Page the page. `none` is an error of the render.
--   Site/Studio: studio.jsx, its table in Studio/Data and its clicks in Studio/Selection;
--     Studio/Canvas, Panel and Page are the canvas, the properties and the page.
--   Site/Docs: docs.jsx, the sidebar and the pages in Docs/Data, the addresses in Docs/Pages, the
--     parts and the bodies of the pages in Docs/Parts and Docs/Bodies, the page in Docs/Page.
--   Site/Labels: the tables, tags and colours of changelog.jsx and api.jsx; Labels/Api and
--     Labels/Notes are their pages.
--   Site/App: `App` of app.jsx, which puts the page of the route between header and footer, and the
--     whole site over a session: events of the shell, clicks in the pages, replies of the server.
--     An error of a render unmounts the root, and nothing but a reload of the window mounts it
--     again. App/Session is about what it keeps and what unmounts it, App/Sound about links and nesting, App/Clicks about what
--     the elements do when they are clicked.
-- Load: tools/load/k6-traces.js, one iteration of each scenario by what the server answers. The
--   random index is an argument.
-- TraceDiff: `between` of
--   tracegraph-observability/src/main/java/io/tracegraph/observability/replay/TraceDiff.java.
--   TraceDiff/Shown joins it to the diff view: the JSON of the record is a hypothesis there, as it
--   is a library's work.
-- Complexity: `longestPath` of
--   tracegraph-core/src/main/java/io/tracegraph/core/analysis/GraphComplexity.java, whose result the
--   graph view shows as the depth. Its loop has a stack in place of the Java deque, and fuel for the
--   frames that can come from the first one. Complexity/Depth unrolls the loop to a recursion,
--   Complexity/Walks reads the recursion as the walks of the graph.
-- Retry: `RetryPolicy` of tracegraph-core/src/main/java/io/tracegraph/core/RetryPolicy.java and
--   `invokeWithRetry` of tracegraph-core/src/main/java/io/tracegraph/core/exec/Executor.java, by what
--   the node replies at each attempt and which sleeps are interrupted. The listener and the recorder
--   are taken to return, and the backoff is a function of the attempt. The loop counts the attempts
--   that are left, so it needs no fuel. Retry/Kinds has the loops for subgraphs and routing nodes
--   and the choice between the three, as in the run of a graph.
-- The modules called Tests apply the theorems at concrete inputs.
--
-- Loops are structural recursion. There is fuel in `decimal`, one more than the number, which has
-- fewer digits than that; the loop of `between` counts down what its index lacks to the bound.
-- The fuel of `longestPath` is what a tree of the height of the node count, with all edges at every
-- node, has of frames, and the loop is shown to end with it.
-- Numbers of the language are whole numbers, or any other number by its text.
--
-- Not modelled: the texts of the percentages of the timeline, floating-point numbers, and the icons of
-- the icon library, which are arguments; the configuration of the load test; the other Java code; the
-- generated site under docs/site, whose scripts are third-party code.
pub mod Base
pub mod Value
pub mod Spa
pub mod Site
pub mod Load
pub mod TraceDiff
pub mod Complexity
pub mod Retry
