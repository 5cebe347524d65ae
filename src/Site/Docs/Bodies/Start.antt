-- ===== src/Site/Docs/Bodies/Start.antt =====
-- `DOC_PAGES` of docs.jsx: the bodies of pages.
use trace_graph.Base.{codes, List, [], ◌∷◌, none, some}
use trace_graph.Site.Markup.{strong_tag, Node, txt, el}
use trace_graph.Site.Primitives.Elements.{code}
use trace_graph.Site.Docs.Parts.{h2, p, cb, callout, table}

unfoldable pub quickstart_body : List Node
unfolding code h2 p cb callout
quickstart_body =
    h2 (some (codes "install")) (txt (codes "1. Install") ∷ [])
    ∷ p (
        txt (codes "Add the core module to your ")
        ∷ code [] (txt (codes "pom.xml") ∷ [])
        ∷ txt (codes ". Everything else is additive.")
        ∷ [])
    ∷ cb (some (codes "pom.xml")) (codes "xml") (
        codes
          "<dependency>\n    <groupId>site.tracegraph</groupId>\n    <artifactId>tracegraph-core</artifactId>\n    <version>0.3.0</version>\n</dependency>")
    ∷ h2 (some (codes "state")) (txt (codes "2. Define your state") ∷ [])
    ∷ p (
        txt (
          codes
            "State is a Java record. Records give you immutability, equality, and structural diffing for free.")
        ∷ [])
    ∷ cb (some (codes "OrderState.java")) (codes "java") (
        codes
          "record OrderState(String id, boolean valid, boolean charged) {\n    OrderState withValid(boolean v)   { return new OrderState(id, v, charged); }\n    OrderState withCharged(boolean v) { return new OrderState(id, valid, v); }\n}")
    ∷ h2 (some (codes "build")) (txt (codes "3. Build the graph") ∷ [])
    ∷ p (
        txt (
          codes
            "Three nodes, two edges, one entry, one terminal. The fluent builder is the contract.")
        ∷ [])
    ∷ cb (some (codes "Pipeline.java")) (codes "java") (
        codes
          "Graph<OrderState> graph = Graph.<OrderState>builder()\n    .node(\"validate\", (s, ctx) -> s.withValid(true))\n    .node(\"charge\",   (s, ctx) -> s.withCharged(true))\n    .entry(\"validate\")\n    .edge(\"validate\", \"charge\", OrderState::valid)\n    .terminal(\"charge\")\n    .build();")
    ∷ h2 (some (codes "run")) (txt (codes "4. Run it") ∷ [])
    ∷ cb (some (codes "Main.java")) (codes "java") (
        codes
          "ExecutionResult<OrderState> r = graph.run(new OrderState(\"o-1\", false, false));\nSystem.out.println(r.status());     // COMPLETED\nSystem.out.println(r.finalState()); // OrderState[id=o-1, valid=true, charged=true]\nSystem.out.println(r.path());       // [validate, charge]")
    ∷ callout (
        el strong_tag [] (txt (codes "What just happened.") ∷ [])
        ∷ txt (codes " The executor ran ")
        ∷ code [] (txt (codes "validate") ∷ [])
        ∷ txt (codes ", applied its return value as the new state, evaluated the predicate ")
        ∷ code [] (txt (codes "OrderState::valid") ∷ [])
        ∷ txt (codes ", and continued to ")
        ∷ code [] (txt (codes "charge") ∷ [])
        ∷ txt (codes ". Terminal reached, run done.")
        ∷ [])
    ∷ []

unfoldable pub install_body : List Node
unfolding h2 cb table
install_body =
    h2 none (txt (codes "Requirements") ∷ [])
    ∷ table (codes "Dependency" ∷ codes "Version" ∷ []) (
        (codes "JDK" ∷ codes "21+ (records, pattern matching, virtual threads)" ∷ [])
        ∷ (codes "Maven" ∷ codes "3.9+" ∷ [])
        ∷ (codes "SLF4J binding" ∷ codes "any (logback, log4j2, jul)" ∷ [])
        ∷ [])
    ∷ h2 none (txt (codes "Maven") ∷ [])
    ∷ cb (some (codes "pom.xml")) (codes "xml") (
        codes
          "<dependency>\n    <groupId>site.tracegraph</groupId>\n    <artifactId>tracegraph-core</artifactId>\n    <version>0.3.0</version>\n</dependency>")
    ∷ h2 none (txt (codes "Gradle") ∷ [])
    ∷ cb (some (codes "build.gradle.kts")) (codes "kotlin") (
        codes
          "implementation(\"site.tracegraph:tracegraph-core:0.3.0\")\nimplementation(\"site.tracegraph:tracegraph-observability:0.3.0\")\nimplementation(\"site.tracegraph:tracegraph-spring-boot-starter:0.3.0\")")
    ∷ []

unfoldable pub firstgraph_body : List Node
unfolding cb
firstgraph_body =
    cb (some (codes "OrderPipeline.java")) (codes "java") (
      codes
        "Graph<OrderState> graph = Graph.<OrderState>builder()\n    .node(\"validate\", OrderNodes::validate)\n    .parallel(\"enrich\",\n        List.of(OrderNodes::profile, OrderNodes::fraud, OrderNodes::inventory),\n        (input, branches) -> branches.stream().reduce(input, OrderState::merge))\n    .asyncNode(\"score\", OrderNodes::scoreAsync)\n    .node(\"charge\", OrderNodes::charge,\n        RetryPolicy.exponential(3, Duration.ofMillis(100), 2.0, Duration.ofSeconds(2)))\n    .node(\"ship\", OrderNodes::ship)\n    .entry(\"validate\")\n    .edge(\"validate\", \"enrich\", OrderState::valid)\n    .edge(\"enrich\", \"score\")\n    .edge(\"score\", \"charge\", s -> s.riskScore() < 0.5)\n    .edge(\"charge\", \"ship\", OrderState::charged)\n    .terminal(\"ship\")\n    .build();")
    ∷ []
